-- ===== src/Interface/Datagram.antt =====
-- What an IPv4 frame for this interface brings up.
use tcp.Prelude.{◌+◌, ◌*◌, ◌≡◌, refl, true, [], ◌∷◌, ◌++◌, some, length}
use tcp.Buffer.{Buffer, str, to_buffer, concatenate}
use tcp.Ethernet.{EthernetFrame, type_ipv4}
use tcp.Ipv4.{Ipv4Datagram}
use tcp.Ipv4.Wire.{IsValid, all_header}
use tcp.Ipv4.RoundTrip.{with_sum, parse_lem, with_sum-IsValid, checks}
use tcp.Interface.{NetworkInterface, recv_ipv4, recv_frame, new_datagram}
use tcp.Interface.Learn.{for_us, passes}

pub recv_frame-datagram :
    (i : NetworkInterface) (frame : EthernetFrame) (b : Buffer) (d : Ipv4Datagram)
    → for_us i frame ≡ true
    → frame.header.ether_type ≡ type_ipv4
    → frame.payload ≡ b ∷ []
    → IsValid d.header
    → 4 * d.header.hlen + length (concatenate d.payload) ≡ d.header.len
    → str b ≡ all_header (with_sum d.header) ++ concatenate d.payload
    → (p : Buffer) × (recv_frame i frame
        ≡ some (some (record { header = with_sum d.header; payload = p ∷ [] }), i))
      × (str p ≡ concatenate d.payload)
unfolding recv_frame recv_ipv4 to_buffer
recv_frame-datagram i frame b d ours ipv4 one v fits text =
    let (p, _, parsed, left) =
      parse_lem (with_sum d.header) new_datagram b (concatenate d.payload) 0
        (with_sum-IsValid d.header v) text fits (checks d.header v) in
    (p.buffer, rw (passes _ _ ours, ipv4, one, parsed) refl, left)
