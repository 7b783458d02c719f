-- ===== src/StreamCopy/Rules.antt =====
-- The four rules lose nothing and keep the contract of the event loop.
use tcp.Prelude.{
  All, ℕ, ◌<◌, ◌≡◌, ◌≢◌, refl, sym, ap, subst, ◌∙◌, inl, true, ◌++◌, append_assoc, Option, some,
  arith, and_then, add32, u32_mod, one_of,
}
use tcp.ByteStream
use tcp.ByteStream.{ByteStream}
use tcp.ByteStream.Invariant.{contents, end_input-IsValid}
use tcp.FileDescriptor.{FileDescriptor, register_write, close}
use tcp.EventLoop.{service_count}
use tcp.EventLoop.Cooperative.{IsCooperative}
use tcp.Socket.Running.{counted_once, counted_twice}
use tcp.StreamCopy.{
  Endpoints, Copier, end_outbound, shut_socket, write_socket, end_inbound, shut_output,
  write_output, rules,
}
use tcp.StreamCopy.Streams.{pour_lem}
use tcp.StreamCopy.Traffic.{Traffic, Works, Carries, IsCopying, ToSocket, ToOutput}
use tcp.StreamCopy.Reads.{read_input-IsCopying, read_socket-IsCopying}

module _ {K : Type 0} (traffic : K → Traffic) (ends : Endpoints K)
    (works : Works traffic ends) where
  -- After the bytes are written, and the end of the stream with them.
  abbrev Wrote : ℕ → (Copier K → FileDescriptor) → Option (Copier K) → Type 0
  Wrote before fd o =
      (c' : Copier K) × (o ≡ some c') × IsCopying traffic c' × (before ≢ (fd c').write_count)

  shut_socket-IsCopying :
      (c : Copier K) (before : ℕ)
      → IsCopying traffic c
      → before < u32_mod
      → c.socket.write_count ≡ add32 before 1
      → Wrote before (λ c'. c'.socket) (shut_socket ends c)
  unfolding shut_socket
  shut_socket-IsCopying c before v small counted =
      let (k, e, same) = works.shuts c.kernel in
      one_of (Wrote before (λ c'. c'.socket)) (ByteStream.eof c.outbound) _ _
        (
          record c { socket = register_write c.socket; kernel = k; outbound_shutdown = true },
          rw e refl,
          record {
            outbound_valid = v.outbound_valid;
            inbound_valid = v.inbound_valid;
            carries = subst (λ t. Carries t c.outbound c.inbound) (sym same) v.carries;
            input_reads = v.input_reads;
            socket_reads = v.socket_reads;
            socket_writes = omega arith;
            output_writes = v.output_writes;
          },
          λ q. counted_twice before small (q ∙ ap (λ n. add32 n 1) counted),
        )
        (c, refl, v, λ q. counted_once before small (q ∙ counted))

  write_socket-IsCopying :
      (c : Copier K)
      → IsCopying traffic c
      → Wrote c.socket.write_count (λ c'. c'.socket) (write_socket ends c)
  unfolding write_socket
  write_socket-IsCopying c v =
      let (s, k, bytes, e, valid, split, after) =
        pour_lem ends.write_socket (ToSocket traffic) works.takes_socket c.socket c.outbound
          c.kernel v.outbound_valid in
      let c1 = record c { socket = register_write c.socket; outbound = s; kernel = k } in
      let v1 : IsCopying traffic c1 = record {
        outbound_valid = valid;
        inbound_valid = v.inbound_valid;
        carries = record {
          out_whole =
              ap (λ t. t.to_socket ++ contents s) after
              ∙ append_assoc (traffic c.kernel).to_socket bytes (contents s)
              ∙ ap (◌++◌ (traffic c.kernel).to_socket) split
              ∙ v.carries.out_whole
              ∙ sym (ap (λ t. t.from_input) after);
          in_whole =
              ap (λ t. t.to_output ++ contents c.inbound) after
              ∙ v.carries.in_whole
              ∙ sym (ap (λ t. t.from_socket) after);
        };
        input_reads = v.input_reads;
        socket_reads = v.socket_reads;
        socket_writes = omega arith;
        output_writes = v.output_writes;
      } in
      rw (e, and_then) (shut_socket-IsCopying c1 c.socket.write_count v1 v.socket_writes refl)

  shut_output-IsCopying :
      (c : Copier K) (before : ℕ)
      → IsCopying traffic c
      → before < u32_mod
      → c.output.write_count ≡ add32 before 1
      → Wrote before (λ c'. c'.output) (shut_output ends c)
  unfolding shut_output close
  shut_output-IsCopying c before v small counted =
      let (k, e, same) = works.closes c.kernel in
      one_of (Wrote before (λ c'. c'.output)) (ByteStream.eof c.inbound) _ _
        (
          record c {
            output = record c.output { eof = true; closed = true };
            kernel = k;
            inbound_shutdown = true;
          },
          rw e refl,
          record {
            outbound_valid = v.outbound_valid;
            inbound_valid = v.inbound_valid;
            carries = subst (λ t. Carries t c.outbound c.inbound) (sym same) v.carries;
            input_reads = v.input_reads;
            socket_reads = v.socket_reads;
            socket_writes = v.socket_writes;
            output_writes = v.output_writes;
          },
          λ q. counted_once before small (q ∙ counted),
        )
        (c, refl, v, λ q. counted_once before small (q ∙ counted))

  write_output-IsCopying :
      (c : Copier K)
      → IsCopying traffic c
      → Wrote c.output.write_count (λ c'. c'.output) (write_output ends c)
  unfolding write_output
  write_output-IsCopying c v =
      let (s, k, bytes, e, valid, split, after) =
        pour_lem ends.write_output (ToOutput traffic) works.takes_output c.output c.inbound c.kernel
          v.inbound_valid in
      let c1 = record c { output = register_write c.output; inbound = s; kernel = k } in
      let v1 : IsCopying traffic c1 = record {
        outbound_valid = v.outbound_valid;
        inbound_valid = valid;
        carries = record {
          in_whole =
              ap (λ t. t.to_output ++ contents s) after
              ∙ append_assoc (traffic c.kernel).to_output bytes (contents s)
              ∙ ap (◌++◌ (traffic c.kernel).to_output) split
              ∙ v.carries.in_whole
              ∙ sym (ap (λ t. t.from_socket) after);
          out_whole =
              ap (λ t. t.to_socket ++ contents c.outbound) after
              ∙ v.carries.out_whole
              ∙ sym (ap (λ t. t.from_input) after);
        };
        input_reads = v.input_reads;
        socket_reads = v.socket_reads;
        socket_writes = v.socket_writes;
        output_writes = omega arith;
      } in
      rw (e, and_then) (shut_output-IsCopying c1 c.output.write_count v1 v.output_writes refl)

  ends_outbound :
      (c : Copier K)
      → IsCopying traffic c
      → (c' : Copier K) × (end_outbound ends c ≡ some c') × IsCopying traffic c'
  unfolding end_outbound ByteStream.end_input
  ends_outbound c v = (
    _,
    refl,
    record {
      outbound_valid = end_input-IsValid v.outbound_valid;
      inbound_valid = v.inbound_valid;
      carries = record { out_whole = v.carries.out_whole; in_whole = v.carries.in_whole };
      input_reads = v.input_reads;
      socket_reads = v.socket_reads;
      socket_writes = v.socket_writes;
      output_writes = v.output_writes;
    },
  )

  ends_inbound :
      (c : Copier K)
      → IsCopying traffic c
      → (c' : Copier K) × (end_inbound ends c ≡ some c') × IsCopying traffic c'
  unfolding end_inbound ByteStream.end_input
  ends_inbound c v = (
    _,
    refl,
    record {
      outbound_valid = v.outbound_valid;
      inbound_valid = end_input-IsValid v.inbound_valid;
      carries = record { out_whole = v.carries.out_whole; in_whole = v.carries.in_whole };
      input_reads = v.input_reads;
      socket_reads = v.socket_reads;
      socket_writes = v.socket_writes;
      output_writes = v.output_writes;
    },
  )

  pub rules-IsCooperative : All (IsCooperative (IsCopying traffic)) (rules ends)
  unfolding rules service_count
  rules-IsCooperative = (
    record {
      serves = λ c v.
          let (c', e, v', counted) = read_input-IsCopying traffic ends works c v in
          (c', e, v', inl counted);
      cancels = ends_outbound;
    },
    (
      record {
        serves = λ c v.
            let (c', e, v', counted) = write_socket-IsCopying c v in (c', e, v', inl counted);
        cancels = ends_outbound;
      },
      (
        record {
          serves = λ c v.
              let (c', e, v', counted) = read_socket-IsCopying traffic ends works c v in
              (c', e, v', inl counted);
          cancels = ends_inbound;
        },
        (
          record {
            serves = λ c v.
                let (c', e, v', counted) = write_output-IsCopying c v in (c', e, v', inl counted);
            cancels = ends_inbound;
          },
          tt,
        ),
      ),
    ),
  )
