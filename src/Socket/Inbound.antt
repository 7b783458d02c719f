-- ===== src/Socket/Inbound.antt =====
-- What the rule for inbound bytes does.
use tcp.Prelude.{
  ℕ, ◌<◌, ◌≡◌, ◌≢◌, refl, sym, ap, ap₂, take-append_le, ◌∙◌, ◌⊎◌, inl, inr, min, true, ◌||◌, List,
  ◌++◌, append_assoc, some, arith, take, drop, take-append-drop, and_then, add32, u32_mod, one_of,
}
use tcp.ByteStream
use tcp.ByteStream.{ByteStream}
use tcp.ByteStream.Invariant.{contents, pop_output_lem, peek_output_lem}
use tcp.Connection.Calls.{with_inbound, with_inbound-Sound}
use tcp.FileDescriptor.{register_write}
use tcp.FileDescriptor.Once.{write_once_lem}
use tcp.Socket.{
  Kernel, DatagramAdapter, SpongeSocket, inbound, shut_inbound, pop_inbound, write_inbound,
}
use tcp.Socket.Running.{Works, Serves, IsRunning, counted_once, counted_twice}

module _ {A K : Type 0} (moved_size : ℕ → ℕ) (adapter : DatagramAdapter A) (kernel : Kernel K)
    (Fine : A → Type 0) (received : K → List ℕ) (serves : Serves Fine adapter)
    (works : Works received kernel) where
  -- The pipe after `shut_inbound`: the count of writes stays or moves by one.
  shut_inbound-IsRunning :
      (s : SpongeSocket A K)
      → IsRunning Fine s
      → (s' : SpongeSocket A K) × (shut_inbound moved_size adapter kernel s ≡ some s')
        × IsRunning Fine s'
        × ((s'.thread_data.write_count ≡ s.thread_data.write_count)
            ⊎ (s'.thread_data.write_count ≡ add32 s.thread_data.write_count 1))
        × (inbound s' ≡ inbound s)
        × (received s'.kernel ≡ received s.kernel)
  unfolding shut_inbound
  shut_inbound-IsRunning s v =
      let (k, e, same) = works.shuts s.kernel in
      one_of
        (λ o.
          (s' : SpongeSocket A K) × (o ≡ some s')
          × IsRunning Fine s'
          × ((s'.thread_data.write_count ≡ s.thread_data.write_count)
              ⊎ (s'.thread_data.write_count ≡ add32 s.thread_data.write_count 1))
          × (inbound s' ≡ inbound s)
          × (received s'.kernel ≡ received s.kernel))
        (ByteStream.eof (inbound s) || ByteStream.error (inbound s)) _ _
        (
          record s {
            thread_data = register_write s.thread_data;
            kernel = k;
            inbound_shutdown = true;
          },
          rw e refl,
          record {
            connection = v.connection;
            reads_small = v.reads_small;
            writes_small = omega arith;
            adapter_fine = v.adapter_fine;
          },
          inr refl,
          refl,
          same,
        )
        (s, refl, v, inl refl, refl, refl)

  moved_on : (n m : ℕ) → n < u32_mod → (m ≡ add32 n 1) ⊎ (m ≡ add32 (add32 n 1) 1) → n ≢ m
  moved_on n m h (inl e) q = counted_once n h (q ∙ e)
  moved_on n m h (inr e) q = counted_twice n h (q ∙ e)

  -- The callback of rule 3, of a socket that runs, over a kernel whose calls on the pipe do not fail and an adapter
  -- that does not throw and counts its reads: it returns, the socket goes on running, its pipe's count of writes
  -- has changed, and no byte is lost, doubled or moved, whatever part of its bytes the pipe takes: what the
  -- application has received, followed by what waits in the inbound stream, is what it was before.
  pub write_inbound-IsRunning :
      (s : SpongeSocket A K)
      → IsRunning Fine s
      → (s' : SpongeSocket A K) × (write_inbound moved_size adapter kernel s ≡ some s')
        × IsRunning Fine s'
        × (s.thread_data.write_count ≢ s'.thread_data.write_count)
        × (received s'.kernel ++ contents (inbound s') ≡ received s.kernel ++ contents (inbound s))
  unfolding write_inbound pop_inbound
  write_inbound-IsRunning s v =
      let buffer =
        ByteStream.peek_output (inbound s) (min 65536 (ByteStream.buffer_size (inbound s))) in
      let (n, k, e, most, got) =
        write_once_lem received kernel.sys_writev works.accepts buffer s.thread_data s.kernel in
      let valid = v.connection.receiver_sound.stream_valid in
      let (t, e1, held, valid1, cap, end, total, counter) = pop_output_lem valid n in
      let xs = contents (inbound s) in
      let m = min 65536 (ByteStream.buffer_size (inbound s)) in
      let first_bytes : take n buffer ≡ take n xs =
        sym (take-append_le n buffer (drop m xs) most)
        ∙ ap (take n)
            (ap (λ b. b ++ drop m xs) (peek_output_lem valid m) ∙ take-append-drop m xs) in
      let (s', e', v', counted, same, kept) =
        shut_inbound-IsRunning
          (record s {
            thread_data = register_write s.thread_data;
            kernel = k;
            tcp = with_inbound s.tcp t;
          })
          (record {
            connection = with_inbound-Sound s.tcp t v.connection valid1;
            reads_small = v.reads_small;
            writes_small = omega arith;
            adapter_fine = v.adapter_fine;
          }) in
      (
        s',
        rw e (rw (e1, and_then) e'),
        v',
        moved_on _ _ v.writes_small counted,
        ap₂ ◌++◌ (kept ∙ got) (ap contents same ∙ held)
            ∙ append_assoc (received s.kernel) (take n buffer) (drop n xs)
            ∙ ap (◌++◌ (received s.kernel))
                (ap (λ ys. ys ++ drop n xs) first_bytes ∙ take-append-drop n xs),
      )
