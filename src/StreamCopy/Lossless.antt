-- ===== src/StreamCopy/Lossless.antt =====
-- What has come out is what went in.
use tcp.Prelude.{
  All, ◌<◌, ◌≡◌, sym, ap, ap₂, ◌∙◌, inl, inr, Bool-cases, List, [], ◌∷◌, ◌++◌, arith, u32_mod,
}
use tcp.ByteStream.Invariant.{init-IsValid, init-contents}
use tcp.FileDescriptor.{FileDescriptor}
use tcp.EventLoop.{is_exit, Rule, Polled}
use tcp.EventLoop.Cooperative.{IsCooperative, Unbroken, wait_next_event-Cooperative}
use tcp.StreamCopy.{
  Endpoints, Copier, buffer_size, new_copier, rules, Copied, copying, returned, copy_loop,
  bidirectional_stream_copy,
}
use tcp.StreamCopy.Traffic.{Traffic, Works, IsCopying}
use tcp.StreamCopy.Rules.{rules-IsCooperative}

-- The copier goes on or has returned, and has lost nothing.
pub data IsLossless {K : Type 0} (traffic : K → Traffic) : Copied K → Type 0 where
  still_copying :
      {c : Copier K} {rs : List (Rule (Copier K))}
      → IsCopying traffic c
      → IsLossless traffic (copying c rs)
  has_returned : {c : Copier K} → IsCopying traffic c → IsLossless traffic (returned c)

module _ {K : Type 0} (traffic : K → Traffic) where
  copy_loop-IsLossless :
      (ps : List Polled) (rs : List (Rule (Copier K))) (c : Copier K)
      → All Unbroken ps
      → All (IsCooperative (IsCopying traffic)) rs
      → IsCopying traffic c
      → IsLossless traffic (copy_loop ps rs c)
  unfolding copy_loop
  copy_loop-IsLossless [] rs c h coop v = still_copying v
  copy_loop-IsLossless (p ∷ ps) rs c (h, hs) coop v =
      let (result, rs1, c1, e, coop1, v1) =
        wait_next_event-Cooperative (IsCopying traffic) p rs c h coop v in
      elim (Bool-cases (is_exit result)) [
        | inl out ↦ rw (copy_loop, e) (rw out (has_returned v1))
        | inr stays ↦ rw (copy_loop, e) (rw stays (copy_loop-IsLossless ps rs1 c1 hs coop1 v1))
      ]

  -- `bidirectional_stream_copy`, over system calls that do not fail, on a socket whose counts have 32 bits and
  -- through which nothing has come yet: unless poll(2) reports a broken descriptor, it throws nothing, and after
  -- any number of rounds, and where it returns, what was read from the standard input is what the socket has got
  -- followed by what is on the way, and what was read from the socket is what the standard output has got followed
  -- by what is on the way: no byte is lost, doubled or out of place.
  pub copy-IsLossless :
      (ends : Endpoints K)
      → Works traffic ends
      → (k : K) (socket : FileDescriptor) (ps : List Polled)
      → traffic k ≡ record { from_input = []; to_socket = []; from_socket = []; to_output = [] }
      → socket.read_count < u32_mod
      → socket.write_count < u32_mod
      → All Unbroken ps
      → IsLossless traffic (bidirectional_stream_copy ends k socket ps)
  unfolding bidirectional_stream_copy new_copier
  copy-IsLossless ends works k socket ps nothing rc wc h =
      copy_loop-IsLossless ps (rules ends) (new_copier k socket) h
        (rules-IsCooperative traffic ends works)
        (record {
          outbound_valid = init-IsValid buffer_size (omega arith);
          inbound_valid = init-IsValid buffer_size (omega arith);
          carries = record {
            out_whole =
                ap₂ (λ t xs. t.to_socket ++ xs) nothing (init-contents buffer_size)
                ∙ sym (ap (λ t. t.from_input) nothing);
            in_whole =
                ap₂ (λ t xs. t.to_output ++ xs) nothing (init-contents buffer_size)
                ∙ sym (ap (λ t. t.from_socket) nothing);
          };
          input_reads = omega arith;
          socket_reads = rc;
          socket_writes = wc;
          output_writes = omega arith;
        })
