-- ===== src/Simulator/Arrives.antt =====
-- A datagram for an unknown neighbour arrives.
use tcp.Prelude.{
  ◌+◌, ◌*◌, ◌<◌, ◌≡◌, refl, sym, ap, ◌∙◌, Bool, true, false, ◌||◌, List, [], ◌∷◌, ◌++◌, append-nil,
  none, some, and_then, arith, length, u32_mod, eq→==, if◌then◌else◌,
}
use mathlib.Core.Bool.{false≢true}
use tcp.Table.{lookup}
use tcp.Buffer.{Buffer, BufferList, str, of_string, list_of_string, concatenate}
use tcp.Buffer.Laws.{str-of_string, concatenate-list_of_string}
use tcp.Ethernet.{EthernetAddress, EthernetFrame, same_address, type_arp, type_ipv4}
use tcp.Ethernet.Wire.{AddressIsValid}
use tcp.Arp.{ArpMessage, message_bytes, supported}
use tcp.Arp.Wire
use tcp.Ipv4
use tcp.Ipv4.{Ipv4Header, Ipv4Datagram}
use tcp.Ipv4.Wire as Header
use tcp.Ipv4.RoundTrip.{with_sum, serialize_lem}
use tcp.Interface
use tcp.Interface.{
  NetworkInterface, request, reply, new_datagram, is_valid_arp_request, is_valid_arp_reply,
}
use tcp.Interface.Sent.{
  frame_from, with_frames, request_frame, reply_frame, asked, send_datagram_asks,
}
use tcp.Interface.Learn.{recv_frame-learnt, waiting_frames, learnt, replies, for_us}
use tcp.Interface.Datagram.{recv_frame-datagram}
use tcp.Network
use tcp.Network.{AsyncNetworkInterface}
use tcp.Simulator.{clear, whole, deliver, exchange_frames, exchanges}

-- The addresses of an interface fit their types.
pub record HasAddress (i : NetworkInterface) : Type 0 where
  pub ethernet_valid : AddressIsValid i.ethernet_address
  pub ip_fits : i.ip_address < u32_mod

-- Nothing is under way on the interface.
pub record IsQuiet (i : NetworkInterface) : Type 0 where
  pub no_frames : i.frames_out ≡ []
  pub no_datagrams : i.waiting_datagrams ≡ []

same_address_self : (a : EthernetAddress) → same_address a a ≡ true
unfolding same_address
same_address_self a = ground arith

-- An ARP message that is read from the frame which holds it, by an interface for which nothing waits.
arp_read :
    (i : NetworkInterface) (f : EthernetFrame) (m : ArpMessage) (fs : List EthernetFrame)
    → for_us i f ≡ true
    → f.header.ether_type ≡ type_arp
    → concatenate f.payload ≡ message_bytes m
    → Wire.IsValid m
    → supported m ≡ true
    → (is_valid_arp_reply i m || is_valid_arp_request i m) ≡ true
    → waiting_frames i m ≡ some fs
    → Interface.recv_frame i (whole f) ≡ some (none, learnt (with_frames i (replies i m)) m fs)
unfolding list_of_string
arp_read i f m fs ours arp text v sup valid waits =
    recv_frame-learnt i (whole f) (of_string (concatenate f.payload)) m [] ours arp refl
      (str-of_string (concatenate f.payload) ∙ text ∙ sym (append-nil (message_bytes m))) v sup
      valid
    ∙ ap (λ o. and_then o (λ k. some (none, learnt (with_frames i (replies i m)) m k))) waits

-- The interface with nothing under way.
abbrev calm : NetworkInterface → NetworkInterface
calm i = record i { frames_out = []; waiting_datagrams = [] }

calm-same : (i : NetworkInterface) → IsQuiet i → calm i ≡ i
calm-same i q =
    λ k. record i { frames_out = (sym q.no_frames) k; waiting_datagrams = (sym q.no_datagrams) k }

or_true : (a b : Bool) → b ≡ true → (a || b) ≡ true
or_true true b h = refl
or_true false b h = h

or_left : (a b : Bool) → a ≡ true → (a || b) ≡ true
or_left true b h = refl
or_left false b h = absurd (false≢true h)

module _ (x y : NetworkInterface) (vx : HasAddress x) (vy : HasAddress y) where
  -- The request is read, and replied to.
  request_read :
      Interface.recv_frame (calm y) (whole (request_frame x y.ip_address))
      ≡ some (
        none,
        learnt
            (with_frames (calm y) (reply_frame y (request x y.ip_address) ∷ []))
            (request x y.ip_address)
            [],
      )
  unfolding supported is_valid_arp_request same_address
  request_read =
      let m = request x y.ip_address in
      let valid : Wire.IsValid m = omega (arith, vx, vy) in
      let ours = eq→== y.ip_address y.ip_address refl in
      arp_read (calm y) (request_frame x y.ip_address) m [] (or_true _ _ refl) refl
        (concatenate-list_of_string (message_bytes m)) valid refl (or_true _ _ ours) refl
      ∙ ap
          (λ b.
            some
              (none, learnt (with_frames (calm y) (if b then reply_frame y m ∷ [] else [])) m []))
          ours

  -- The reply is read, and what waits is sent.
  reply_read :
      (i : NetworkInterface) (d : Ipv4Datagram) (bl : BufferList)
      → i.ethernet_address ≡ x.ethernet_address
      → i.ip_address ≡ x.ip_address
      → i.waiting_datagrams ≡ (y.ip_address, d) ∷ []
      → Ipv4.serialize d ≡ some bl
      → Interface.recv_frame i (whole (reply_frame y (request x y.ip_address)))
        ≡ some (
          none,
          learnt
              (with_frames i [])
              (reply y (request x y.ip_address))
              (frame_from i.ethernet_address y.ethernet_address type_ipv4 bl ∷ []),
        )
  unfolding supported is_valid_arp_request is_valid_arp_reply
  reply_read i d bl same_ethernet same_ip waits bytes =
      let m = reply y (request x y.ip_address) in
      let valid : Wire.IsValid m = omega (arith, vx, vy) in
      let ours =
        ap (same_address x.ethernet_address) same_ethernet ∙ same_address_self x.ethernet_address in
      let here = eq→== y.ip_address y.ip_address refl in
      arp_read i (reply_frame y (request x y.ip_address)) m
        (frame_from i.ethernet_address y.ethernet_address type_ipv4 bl ∷ []) (or_left _ _ ours) refl
        (concatenate-list_of_string (message_bytes m)) valid refl (or_left _ _ ours)
        (rw (waits, here, bytes) refl)

  abbrev async : NetworkInterface → List Ipv4Datagram → AsyncNetworkInterface
  async i out = record { interface = i; datagrams_out = out }

  -- After the first exchange: the reply is on its way.
  abbrev replied : NetworkInterface
  replied =
      learnt (with_frames (calm y) (reply_frame y (request x y.ip_address) ∷ []))
        (request x y.ip_address) []

  abbrev waiting : Ipv4Datagram → NetworkInterface
  waiting d = record (asked (calm x) d y.ip_address) { frames_out = [] }

  -- After the second one: the datagram is on its way.
  abbrev known : Ipv4Datagram → BufferList → NetworkInterface
  known d bl =
      learnt (with_frames (waiting d) []) (reply y (request x y.ip_address))
        (frame_from x.ethernet_address y.ethernet_address type_ipv4 bl ∷ [])

  first :
      (d : Ipv4Datagram) (xs ys : List Ipv4Datagram)
      → exchange_frames (async (asked (calm x) d y.ip_address) xs) (async (calm y) ys)
        ≡ some (async (waiting d) xs, async replied ys)
  unfolding exchange_frames deliver clear Network.recv_frame
  first d xs ys = rw request_read refl

  second :
      (d : Ipv4Datagram) (bl : BufferList) (xs ys : List Ipv4Datagram)
      → Ipv4.serialize d ≡ some bl
      → exchange_frames (async (waiting d) xs) (async replied ys)
        ≡ some (async (known d bl) xs, async (record replied { frames_out = [] }) ys)
  unfolding exchange_frames deliver clear Network.recv_frame
  second d bl xs ys bytes = rw (reply_read (waiting d) d bl refl refl refl bytes) refl

  third :
      (d : Ipv4Datagram) (bl : BufferList) (xs ys : List Ipv4Datagram)
      → Header.IsValid d.header
      → 4 * d.header.hlen + length (concatenate d.payload) ≡ d.header.len
      → concatenate bl ≡ Header.all_header (with_sum d.header) ++ concatenate d.payload
      → (p : Buffer) × (exchange_frames
            (async (known d bl) xs)
            (async (record replied { frames_out = [] }) ys)
          ≡ some (
            async (record (known d bl) { frames_out = [] }) xs,
            async
                (record replied { frames_out = [] })
                (ys ++ record { header = with_sum d.header; payload = p ∷ [] } ∷ []),
          ))
        × (str p ≡ concatenate d.payload)
  unfolding exchange_frames deliver clear Network.recv_frame list_of_string
  third d bl xs ys v fits text =
      let (p, e, left) =
        recv_frame-datagram (record replied { frames_out = [] })
          (whole (frame_from x.ethernet_address y.ethernet_address type_ipv4 bl))
          (of_string (concatenate bl)) d (or_left _ _ (same_address_self y.ethernet_address)) refl
          refl v fits (str-of_string (concatenate bl) ∙ text) in
      (p, rw e refl, left)

-- Two quiet interfaces on one link: a datagram with a valid header and as many bytes of payload as it says,
-- that one sends to the other's IP address without knowing its Ethernet address, has arrived after three
-- exchanges of frames, with its bytes and its checksum, and the interfaces are quiet again.
pub datagram_arrives :
    (x y : NetworkInterface) (xs ys : List Ipv4Datagram) (d : Ipv4Datagram)
    → HasAddress x
    → HasAddress y
    → IsQuiet x
    → IsQuiet y
    → lookup y.ip_address x.arp_table ≡ none
    → lookup y.ip_address x.waiting_arp_response ≡ none
    → Header.IsValid d.header
    → 4 * d.header.hlen + length (concatenate d.payload) ≡ d.header.len
    → (sent x' y' : NetworkInterface) × (p : Buffer) × (Interface.send_datagram x d y.ip_address
        ≡ some sent)
      × (exchanges 3
            (record { interface = sent; datagrams_out = xs })
            (record { interface = y; datagrams_out = ys })
          ≡ some (
            record { interface = x'; datagrams_out = xs },
            record {
              interface = y';
              datagrams_out = ys ++ record { header = with_sum d.header; payload = p ∷ [] } ∷ [];
            },
          ))
      × (str p ≡ concatenate d.payload)
      × IsQuiet x'
      × IsQuiet y'
unfolding exchanges
datagram_arrives x y xs ys d vx vy qx qy free unasked v fits =
    let (bl, bytes, text) = serialize_lem d v fits in
    let (p, e, left) = third x y vx vy d bl xs ys v fits text in
    let here = eq→== y.ip_address y.ip_address refl in
    let x' = record (known x y vx vy d bl) { frames_out = [] } in
    let y' = record (replied x y vx vy) { frames_out = [] } in
    let sent = asked (calm x) d y.ip_address in
    let ys' = ys ++ record { header = with_sum d.header; payload = p ∷ [] } ∷ [] in
    let go : exchanges 3 (record { interface = sent; datagrams_out = xs })
          (record { interface = calm y; datagrams_out = ys })
        ≡ some (
          record { interface = x'; datagrams_out = xs },
          record { interface = y'; datagrams_out = ys' },
        ) =
      rw (first x y vx vy d xs ys, second x y vx vy d bl xs ys bytes, e) refl in
    (
      sent,
      x',
      y',
      p,
      send_datagram_asks x d y.ip_address free unasked
          ∙ ap (λ i. some (asked i d y.ip_address)) (sym (calm-same x qx)),
      ap
            (λ j.
              exchanges 3 (record { interface = sent; datagrams_out = xs })
                (record { interface = j; datagrams_out = ys }))
            (sym (calm-same y qy))
          ∙ go,
      left,
      record {
        no_frames = refl;
        no_datagrams = ap (λ b. if b then [] else (y.ip_address, d) ∷ []) here;
      },
      record { no_frames = refl; no_datagrams = refl },
    )
