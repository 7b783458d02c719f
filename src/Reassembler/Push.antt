-- ===== src/Reassembler/Push.antt =====
-- `push_substring` as a whole, for the substrings of one source stream.
use tcp.Prelude.{
  ℕ, ◌+◌, ◌-◌, ◌<◌, ◌≡◌, refl, sym, ap, ap₂, ◌∙◌, subst, Bool, true, false, List, ◌++◌, arith,
  length, take_all, u64_mod, add64,
}
use tcp.ByteStream
use tcp.ByteStream.{ByteStream}
use tcp.ByteStream.Invariant.{
  IsValid, contents, init-IsValid, init-contents, contents-write, write-IsValid, capacity-write,
  read_count-write, end_input-IsValid,
}
use tcp.Reassembler.{
  StreamReassembler, Work, init, store_bytes, begin, assemble, end_if, finish, push_substring,
}
use tcp.Reassembler.Count.{count_stop}
use tcp.Reassembler.Source.{slice, slice-append, length-slice, Agrees, Inv}
use tcp.Reassembler.Loop.{Mid, store_bytes-Mid}
use tcp.Reassembler.Drain.{drain_ends, Ended-missing}

pub init-Inv : (source : ℕ → ℕ) (capacity : ℕ) → capacity < u64_mod → Inv source (init capacity)
unfolding init ByteStream.init
init-Inv source capacity h = record {
  output_valid = init-IsValid capacity h;
  same_capacity = refl;
  room = omega arith;
  unread = omega arith;
  window = omega arith;
  held = init-contents capacity;
  assembled = λ k l. absurd (omega arith);
  missing = refl;
  stored = λ k l e. absurd (cc);
  counted = count_stop (λ _. false) 0 (0 + capacity) (omega arith) (λ j l. refl);
}

-- The end of the reassembler's window.
abbrev pub limit : StreamReassembler → ℕ
limit r = r.output.read_count + r.capacity

module _ {source : ℕ → ℕ} {r : StreamReassembler} (v : Inv source r) where
  begin-Mid : (index : ℕ) → Mid source r.first_unassembled (limit r) index (begin r)
  begin-Mid index = record {
    low = omega arith;
    high = v.window;
    written = let z : r.first_unassembled - r.first_unassembled ≡ 0 = omega arith in rw z;
    assembled = v.assembled;
    missing = λ _. v.missing;
    stored = v.stored;
    counted = v.counted;
  }

  pub assemble-Mid :
      (bytes : List ℕ) (index : ℕ)
      → index < u64_mod
      → Agrees source index bytes
      → let w = assemble r bytes index in
        Mid source r.first_unassembled (limit r) 0 w × (w.m_exist w.first_unassembled ≡ false)
  unfolding assemble ByteStream.bytes_read
  assemble-Mid bytes index h a =
      let lim : add64 r.output.read_count r.capacity ≡ limit r = omega arith in
      let small : limit r < u64_mod = v.room in
      let zero_on : index + 0 ≡ index = omega arith in
      let w = store_bytes (limit r) index 0 bytes (begin r) in
      let stored =
        store_bytes-Mid source r.first_unassembled (limit r) index 0 bytes (begin r) small
          (omega arith) (subst (λ k. Agrees source k bytes) (sym zero_on) a)
          (begin-Mid (index + 0)) in
      let ready =
        subst (λ k. Mid source r.first_unassembled (limit r) (add64 k (length bytes)) w) zero_on
          stored in
      rw (lim, assemble)
        (Ended-missing source r.first_unassembled (limit r) small _ (
          drain_ends source r.first_unassembled (limit r) small w.unassembled
            (add64 index (length bytes)) w (omega arith) ready))

-- Whether `end_input` is called or not, the bytes and the counters are the same.
end_if_same :
    (b : Bool) (s : ByteStream)
    → (contents (end_if b s) ≡ contents s)
      × ((end_if b s).capacity ≡ s.capacity)
      × ((end_if b s).read_count ≡ s.read_count)
      × ((end_if b s).write_count ≡ s.write_count)
unfolding end_if ByteStream.end_input
end_if_same true s = (refl, refl, refl, refl)
end_if_same false s = (refl, refl, refl, refl)

end_if-IsValid : (b : Bool) (s : ByteStream) → IsValid s → IsValid (end_if b s)
unfolding end_if
end_if-IsValid true s v = end_input-IsValid v
end_if-IsValid false s v = v

module _ {source : ℕ → ℕ} {r : StreamReassembler} (v : Inv source r) (w : Work) where
  -- The bytes that the loops have put together all fit into the output.
  pub write_fits :
      Mid source r.first_unassembled (limit r) 0 w
      → contents (ByteStream.write r.output w.to_write).1
        ≡ slice source r.output.read_count (w.first_unassembled - r.output.read_count)
  write_fits m =
      let long = ap length m.written ∙ length-slice source r.first_unassembled _ in
      let held = ap length v.held ∙ length-slice source r.output.read_count _ in
      let from : r.output.read_count + (r.first_unassembled - r.output.read_count)
          ≡ r.first_unassembled =
        omega arith in
      let total : (r.first_unassembled - r.output.read_count)
            + (w.first_unassembled - r.first_unassembled)
          ≡ w.first_unassembled - r.output.read_count =
        omega arith in
      contents-write v.output_valid w.to_write
      ∙ ap (◌++◌ (contents r.output)) (take_all _ w.to_write (omega arith))
      ∙ ap₂ ◌++◌ v.held m.written
      ∙ ap
          (λ k.
            slice source r.output.read_count (r.first_unassembled - r.output.read_count)
            ++ slice source k (w.first_unassembled - r.first_unassembled))
          (sym from)
      ∙ slice-append source r.output.read_count (r.first_unassembled - r.output.read_count)
          (w.first_unassembled - r.first_unassembled)
      ∙ ap (slice source r.output.read_count) total

  -- The invariant after the loops, for an output that holds what was written.
  rebuild :
      (out : ByteStream) (unread : ℕ) (eof : Bool)
      → Mid source r.first_unassembled (limit r) 0 w
      → w.m_exist w.first_unassembled ≡ false
      → IsValid out
      → out.capacity ≡ r.capacity
      → out.read_count ≡ r.output.read_count
      → contents out ≡ slice source r.output.read_count (w.first_unassembled - r.output.read_count)
      → Inv source (record r {
        output = out;
        first_unread = unread;
        first_unassembled = w.first_unassembled;
        unassembled = w.unassembled;
        eof_flag = eof;
        m_exist = w.m_exist;
        m_char = w.m_char;
      })
  rebuild out unread eof m gone ov oc or oh = record {
    output_valid = ov;
    same_capacity = oc;
    room = omega (arith, v.room);
    unread = omega (arith, v.unread, m.low);
    window = omega (arith, m.high);
    held = rw or oh;
    assembled = m.assembled;
    missing = gone;
    stored = rw or m.stored;
    counted = rw or m.counted;
  }

  finish-Inv :
      (end : ℕ) (eof : Bool)
      → Mid source r.first_unassembled (limit r) 0 w
      → w.m_exist w.first_unassembled ≡ false
      → Inv source (finish r w end eof)
  unfolding finish
  finish-Inv end eof m gone =
      let written = (ByteStream.write r.output w.to_write).1 in
      let (sc, scap, sread, swrite) = end_if_same _ written in
      rebuild _ _ _ m gone (end_if-IsValid _ written (write-IsValid v.output_valid w.to_write))
        (scap ∙ capacity-write r.output w.to_write ∙ v.same_capacity)
        (sread ∙ read_count-write r.output w.to_write) (sc ∙ write_fits m)

-- Pushing a substring of the source, at any place and in any order, keeps the invariant: the
-- output holds the source's bytes, in order and each once, up to `first_unassembled`, which is the
-- first index that has not arrived, and `unassembled` counts the bytes stored beyond it. Nothing
-- is assumed of the order, the overlaps or the end of the substring.
pub push_substring-Inv :
    {source : ℕ → ℕ} {r : StreamReassembler} (bytes : List ℕ) (index : ℕ) (eof : Bool)
    → Inv source r
    → index < u64_mod
    → Agrees source index bytes
    → Inv source (push_substring r bytes index eof)
unfolding push_substring
push_substring-Inv bytes index eof v h a =
    let (m, gone) = assemble-Mid v bytes index h a in finish-Inv v _ _ eof m gone

-- A push moves neither the reader nor the capacity.
pub limit-push_substring :
    (r : StreamReassembler) (bytes : List ℕ) (index : ℕ) (eof : Bool)
    → ((push_substring r bytes index eof).output.read_count ≡ r.output.read_count)
      × ((push_substring r bytes index eof).capacity ≡ r.capacity)
unfolding push_substring finish
limit-push_substring r bytes index eof =
    let w = assemble r bytes index in
    let (sc, scap, sread, swrite) = end_if_same _ (ByteStream.write r.output w.to_write).1 in
    (sread ∙ read_count-write r.output w.to_write, refl)
