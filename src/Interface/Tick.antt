-- ===== src/Interface/Tick.antt =====
-- The loop of `tick` that sends requests again: when it ends, what it does, and when it never ends.
use tcp.Prelude.{
  ℕ, zero, suc, ◌-◌, ◌*◌, ◌≤◌, ◌<◌, ◌≡◌, refl, sym, ap, ap₂, ◌∙◌, true, false, List, [], ◌∷◌, ◌++◌,
  append_assoc, append-nil, map, arith, length, leb, ltb, ◌==◌, ==→eq, subst, Option, none, some,
  Bool-cases, inl, inr, if◌then◌else◌,
}
use tcp.Table.{Table, lookup}
use tcp.Router.{Address}
use tcp.Interface.{
  NetworkInterface, ArpEntry, ticked, still_running, resend, tick, age, arp_response_default_ttl,
}
use tcp.Interface.Sent.{with_frames, request_frame, send_request_lem}

-- The addresses whose time is up, in the order of the table.
abbrev pub expired : ℕ → Table ℕ → List Address
expired ms [] = []
expired ms ((ip, ttl) ∷ rest) = if leb ttl ms then ip ∷ expired ms rest else expired ms rest

-- The times after the tick. One that is up is set anew, and then the same time is taken off it.
abbrev pub renewed : ℕ → Table ℕ → Table ℕ
renewed ms [] = []
renewed ms ((ip, ttl) ∷ rest) =
    (ip, (if leb ttl ms then arp_response_default_ttl else ttl) - ms) ∷ renewed ms rest

abbrev resent : ℕ → NetworkInterface → Table ℕ → Table ℕ → NetworkInterface
resent ms i before after = record i {
  frames_out = i.frames_out ++ map (request_frame i) (expired ms after);
  waiting_arp_response = before ++ renewed ms after;
}

resent_nil :
    (ms : ℕ) (i : NetworkInterface) (before : Table ℕ)
    → ticked (record i { waiting_arp_response = before }) ≡ ticked (resent ms i before [])
resent_nil ms i before =
    ap₂ (λ fs w. ticked (record i { frames_out = fs; waiting_arp_response = w }))
      (sym (append-nil i.frames_out)) (sym (append-nil before))

-- A round on a request whose time is up, and on another one.
pub resend_up :
    (fuel ms : ℕ) (i : NetworkInterface) (before rest : Table ℕ) (ip ttl : ℕ)
    → leb ttl ms ≡ true
    → resend (suc fuel) ms i before ((ip, ttl) ∷ rest)
      ≡ resend fuel ms
          (with_frames i (request_frame i ip ∷ []))
          before
          ((ip, arp_response_default_ttl) ∷ rest)
unfolding resend
resend_up fuel ms i before rest ip ttl up = rw (resend, up, send_request_lem i ip) refl

pub resend_left :
    (fuel ms : ℕ) (i : NetworkInterface) (before rest : Table ℕ) (ip ttl : ℕ)
    → leb ttl ms ≡ false
    → resend (suc fuel) ms i before ((ip, ttl) ∷ rest)
      ≡ resend fuel ms i (before ++ (ip, ttl - ms) ∷ []) rest
unfolding resend
resend_left fuel ms i before rest ip ttl left = rw (resend, left) refl

-- Two rounds for an entry are enough.
resend_lem :
    (fuel ms : ℕ) (i : NetworkInterface) (before after : Table ℕ)
    → ms < arp_response_default_ttl
    → 2 * length after ≤ fuel
    → resend fuel ms i before after ≡ ticked (resent ms i before after)
unfolding resend
resend_lem zero ms i before [] h enough = resent_nil ms i before
resend_lem (suc fuel) ms i before [] h enough = resent_nil ms i before
resend_lem zero ms i before (e ∷ rest) h enough = absurd (omega (arith, enough))
resend_lem (suc zero) ms i before (e ∷ rest) h enough = absurd (omega (arith, enough))
resend_lem (suc (suc fuel)) ms i before ((ip, ttl) ∷ rest) h enough =
    elim (Bool-cases (leb ttl ms)) [
      | inl up ↦
          let fresh : leb arp_response_default_ttl ms ≡ false = ground arith in
          let i' = with_frames i (request_frame i ip ∷ []) in
          resend_up (suc fuel) ms i before rest ip ttl up
          ∙ resend_left fuel ms i' before rest ip arp_response_default_ttl fresh
          ∙ (rw up (
              resend_lem fuel ms i' (before ++ (ip, arp_response_default_ttl - ms) ∷ []) rest h
                (omega (arith, enough))
              ∙ ap₂ (λ fs w. ticked (record i { frames_out = fs; waiting_arp_response = w }))
                  (append_assoc i.frames_out (request_frame i ip ∷ [])
                    (map (request_frame i) (expired ms rest)))
                  (append_assoc before ((ip, arp_response_default_ttl - ms) ∷ [])
                    (renewed ms rest))))
      | inr left ↦
          resend_left (suc fuel) ms i before rest ip ttl left
          ∙ rw left (
              resend_lem (suc fuel) ms i (before ++ (ip, ttl - ms) ∷ []) rest h
                (omega (arith, enough))
              ∙ ap
                  (λ w. ticked (record i {
                    frames_out = i.frames_out ++ map (request_frame i) (expired ms rest);
                    waiting_arp_response = w;
                  }))
                  (append_assoc before ((ip, ttl - ms) ∷ []) (renewed ms rest)))
    ]

-- An entry of the ARP table when a time has passed: it is gone if its time is up.
abbrev pub left_of : ℕ → Option ArpEntry → Option ArpEntry
left_of ms none = none
left_of ms (some entry) =
    if ltb ms entry.ttl then some (record entry { ttl = entry.ttl - ms }) else none

-- No key twice, as std::unordered_map has it.
abbrev pub Distinct : Table ArpEntry → Type 0
Distinct [] = Unit {0}
Distinct ((k, v) ∷ rest) = (lookup k rest ≡ none) × Distinct rest

lookup-age :
    (ms ip : ℕ) (table : Table ArpEntry)
    → Distinct table
    → lookup ip (age ms table) ≡ left_of ms (lookup ip table)
unfolding age
lookup-age ms ip [] d = refl
lookup-age ms ip ((k, entry) ∷ rest) (once, d) =
    let ih = lookup-age ms ip rest d in
    elim (Bool-cases (k == ip)) [
      | inr other ↦ elim (Bool-cases (leb entry.ttl ms)) [
        | inl up ↦ rw (other, up) ih
        | inr left ↦ rw (other, left) (rw other ih)
      ]
      | inl same ↦
          let gone : lookup ip rest ≡ none =
            subst (λ n. lookup n rest ≡ none) (==→eq k ip same) once in
          elim (Bool-cases (leb entry.ttl ms)) [
            | inl up ↦
                let late : ltb ms entry.ttl ≡ false = ground arith in
                rw (same, up, late) (ih ∙ ap (left_of ms) gone)
            | inr left ↦
                let early : ltb ms entry.ttl ≡ true = ground arith in
                rw left (rw (same, early) refl)
          ]
    ]

-- A tick of less than 5 seconds, on an interface whose ARP table has no address twice, ends after at most two
-- rounds for each waiting request. Of each entry of the ARP table the time has been taken off, and it is gone
-- if no time is left; each request whose time is up has been sent again, once and in order, and nothing else has been sent.
pub tick-ends :
    (i : NetworkInterface) (ms fuel : ℕ)
    → ms < arp_response_default_ttl
    → 2 * length i.waiting_arp_response ≤ fuel
    → Distinct i.arp_table
    → (table : Table ArpEntry) × (tick fuel i ms
        ≡ ticked (record i {
          frames_out = i.frames_out ++ map (request_frame i) (expired ms i.waiting_arp_response);
          arp_table = table;
          waiting_arp_response = renewed ms i.waiting_arp_response;
        }))
      × ((ip : Address) → lookup ip table ≡ left_of ms (lookup ip i.arp_table))
unfolding tick
tick-ends i ms fuel h enough d = (
  age ms i.arp_table,
  resend_lem fuel ms (record i { arp_table = age ms i.arp_table }) [] i.waiting_arp_response h
      enough,
  λ ip. lookup-age ms ip i.arp_table d,
)

resend_never :
    (fuel ms : ℕ) (i : NetworkInterface) (before earlier later : Table ℕ) (ip ttl : ℕ)
    → arp_response_default_ttl ≤ ms
    → ttl ≤ ms
    → resend fuel ms i before (earlier ++ (ip, ttl) ∷ later) ≡ still_running
unfolding resend
resend_never zero ms i before [] later ip ttl h up = refl
resend_never zero ms i before (e ∷ earlier) later ip ttl h up = refl
resend_never (suc fuel) ms i before [] later ip ttl h up =
    resend_up fuel ms i before later ip ttl (ground arith)
    ∙ (resend_never fuel ms (with_frames i (request_frame i ip ∷ [])) before [] later ip
        arp_response_default_ttl h h)
resend_never (suc fuel) ms i before ((ip', ttl') ∷ earlier) later ip ttl h up =
    elim (Bool-cases (leb ttl' ms)) [
      | inl e ↦
          resend_up fuel ms i before (earlier ++ (ip, ttl) ∷ later) ip' ttl' e
          ∙ (resend_never fuel ms (with_frames i (request_frame i ip' ∷ [])) before
              ((ip', arp_response_default_ttl) ∷ earlier) later ip ttl h up)
      | inr e ↦
          resend_left fuel ms i before (earlier ++ (ip, ttl) ∷ later) ip' ttl' e
          ∙ (resend_never fuel ms i (before ++ (ip', ttl' - ms) ∷ []) earlier later ip ttl h up)
    ]

-- The fault: a tick of 5 seconds or more with a request whose time is up never ends, whatever the fuel. The
-- time that is set anew is up at once.
pub tick-never_ends :
    (i : NetworkInterface) (ms : ℕ) (earlier later : Table ℕ) (ip ttl : ℕ)
    → arp_response_default_ttl ≤ ms
    → ttl ≤ ms
    → i.waiting_arp_response ≡ earlier ++ (ip, ttl) ∷ later
    → (fuel : ℕ) → tick fuel i ms ≡ still_running
unfolding tick
tick-never_ends i ms earlier later ip ttl h up there fuel =
    let i' = record i { arp_table = age ms i.arp_table } in
    ap (resend fuel ms i' []) there ∙ resend_never fuel ms i' [] earlier later ip ttl h up
