-- ===== src/StreamCopy/Tests.antt =====
-- A kernel that gives and takes one byte at a time.
use tcp.Prelude.{
  ℕ, zero, suc, ◌≤◌, ◌<◌, ◌≡◌, refl, ap, true, false, List, [], ◌∷◌, ◌++◌, some, arith, length,
  take,
}
use tcp.FileDescriptor.{new_descriptor}
use tcp.EventLoop.{Polled, Revents, ready, timed_out}
use tcp.StreamCopy.{Endpoints, bidirectional_stream_copy}
use tcp.StreamCopy.Traffic.{Traffic, Works}
use tcp.StreamCopy.Lossless.{IsLossless, copy-IsLossless}

abbrev some_bytes : ℕ → List ℕ
some_bytes zero = []
some_bytes (suc n) = 7 ∷ []

abbrev no_traffic : Traffic
no_traffic = record { from_input = []; to_socket = []; from_socket = []; to_output = [] }

abbrev ends : Endpoints Traffic
ends = record {
  read_input = λ n t. some (some_bytes n, record t { from_input = t.from_input ++ some_bytes n });
  read_socket =
      λ n t. some (some_bytes n, record t { from_socket = t.from_socket ++ some_bytes n });
  write_socket = λ buffer t.
      some (length (take 1 buffer), record t { to_socket = t.to_socket ++ take 1 buffer });
  write_output = λ buffer t.
      some (length (take 1 buffer), record t { to_output = t.to_output ++ take 1 buffer });
  shutdown_socket = some;
  close_output = some;
}

short : (n : ℕ) → length (some_bytes n) ≤ n
short zero = omega arith
short (suc n) = omega arith

-- The first byte of a buffer, if there is one.
one_byte :
    (buffer : List ℕ)
    → (length (take 1 buffer) ≤ length buffer)
      × (0 < length buffer → 0 < length (take 1 buffer))
      × (take 1 buffer ≡ take (length (take 1 buffer)) buffer)
one_byte [] = (omega arith, (λ h. h), refl)
one_byte (b ∷ bs) = (omega arith, (λ h. omega arith), refl)

ends-Works : Works {K = Traffic} (λ t. t) ends
ends-Works = record {
  gives_input = λ n t.
      (some_bytes n, record t { from_input = t.from_input ++ some_bytes n }, refl, short n, refl);
  gives_socket = λ n t.
      (some_bytes n, record t { from_socket = t.from_socket ++ some_bytes n }, refl, short n, refl);
  takes_socket = λ buffer t.
      let (most, least, same) = one_byte buffer in
      (
        length (take 1 buffer),
        record t { to_socket = t.to_socket ++ take 1 buffer },
        refl,
        most,
        least,
        ap (λ xs. record t { to_socket = t.to_socket ++ xs }) same,
      );
  takes_output = λ buffer t.
      let (most, least, same) = one_byte buffer in
      (
        length (take 1 buffer),
        record t { to_output = t.to_output ++ take 1 buffer },
        refl,
        most,
        least,
        ap (λ xs. record t { to_output = t.to_output ++ xs }) same,
      );
  shuts = λ t. (t, refl, refl);
  closes = λ t. (t, refl, refl);
}

abbrev both : Revents
both = record { readable = true; writable = true; error = false; hup = false }

abbrev rounds : List Polled
rounds = ready (both ∷ both ∷ both ∷ both ∷ []) ∷ timed_out ∷ []

copy-IsLossless_example :
    IsLossless {K = Traffic}
      (λ t. t)
      (bidirectional_stream_copy ends no_traffic new_descriptor rounds)
copy-IsLossless_example =
    copy-IsLossless (λ t. t) ends ends-Works no_traffic new_descriptor rounds refl (omega arith)
      (omega arith) ((refl, (refl, (refl, (refl, tt)))), (tt, tt))
