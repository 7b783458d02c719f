-- ===== src/StreamCopy/Reads.antt =====
-- The rules that read lose nothing.
use tcp.Prelude.{◌≡◌, ◌≢◌, refl, sym, ap, ap₂, ◌∙◌, ◌++◌, append_assoc, some, arith, and_then}
use tcp.ByteStream.Invariant.{contents}
use tcp.Socket.Running.{counted_once}
use tcp.StreamCopy.{Endpoints, Copier, read_input, read_socket}
use tcp.StreamCopy.Streams.{fill_lem}
use tcp.StreamCopy.Traffic.{Traffic, Works, IsCopying, FromInput, FromSocket}

module _ {K : Type 0} (traffic : K → Traffic) (ends : Endpoints K)
    (works : Works traffic ends) where
  pub read_input-IsCopying :
      (c : Copier K)
      → IsCopying traffic c
      → (c' : Copier K) × (read_input ends c ≡ some c')
        × IsCopying traffic c'
        × (c.input.read_count ≢ c'.input.read_count)
  unfolding read_input
  read_input-IsCopying c v =
      let (fd, s, k, bytes, e, counted, kept, valid, more, after) =
        fill_lem ends.read_input (FromInput traffic) works.gives_input c.input c.outbound c.kernel
          v.outbound_valid in
      (
        record c { input = fd; outbound = s; kernel = k },
        rw (e, and_then) refl,
        record {
          outbound_valid = valid;
          inbound_valid = v.inbound_valid;
          carries = record {
            out_whole =
                ap₂ (λ t xs. t.to_socket ++ xs) after more
                ∙ sym (append_assoc (traffic c.kernel).to_socket (contents c.outbound) bytes)
                ∙ ap (λ xs. xs ++ bytes) v.carries.out_whole
                ∙ sym (ap (λ t. t.from_input) after);
            in_whole =
                ap (λ t. t.to_output ++ contents c.inbound) after
                ∙ v.carries.in_whole
                ∙ sym (ap (λ t. t.from_socket) after);
          };
          input_reads = omega (arith, counted);
          socket_reads = v.socket_reads;
          socket_writes = v.socket_writes;
          output_writes = v.output_writes;
        },
        λ q. counted_once c.input.read_count v.input_reads (q ∙ counted),
      )

  pub read_socket-IsCopying :
      (c : Copier K)
      → IsCopying traffic c
      → (c' : Copier K) × (read_socket ends c ≡ some c')
        × IsCopying traffic c'
        × (c.socket.read_count ≢ c'.socket.read_count)
  unfolding read_socket
  read_socket-IsCopying c v =
      let (fd, s, k, bytes, e, counted, kept, valid, more, after) =
        fill_lem ends.read_socket (FromSocket traffic) works.gives_socket c.socket c.inbound
          c.kernel v.inbound_valid in
      (
        record c { socket = fd; inbound = s; kernel = k },
        rw (e, and_then) refl,
        record {
          outbound_valid = v.outbound_valid;
          inbound_valid = valid;
          carries = record {
            in_whole =
                ap₂ (λ t xs. t.to_output ++ xs) after more
                ∙ sym (append_assoc (traffic c.kernel).to_output (contents c.inbound) bytes)
                ∙ ap (λ xs. xs ++ bytes) v.carries.in_whole
                ∙ sym (ap (λ t. t.from_socket) after);
            out_whole =
                ap (λ t. t.to_socket ++ contents c.outbound) after
                ∙ v.carries.out_whole
                ∙ sym (ap (λ t. t.from_input) after);
          };
          input_reads = v.input_reads;
          socket_reads = omega (arith, counted);
          socket_writes = omega (arith, kept, v.socket_writes);
          output_writes = v.output_writes;
        },
        λ q. counted_once c.socket.read_count v.socket_reads (q ∙ counted),
      )
