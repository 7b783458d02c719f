-- ===== src/Socket/Tun/Tests.antt =====
-- A device that gives the same four bytes at each read, and takes one byte at a time.
use tcp.Prelude.{ℕ, ◌+◌, refl, false, List, [], ◌∷◌, Option, some, take, arith, length-take}
use tcp.FileDescriptor.{new_descriptor}
use tcp.FileDescriptor.Once.{Gives}
use tcp.FileDescriptor.Whole.{Accepts}
use tcp.Socket.Tests.{slow, slow_taken, pipe, pipe-Works, config, adapter_config, rounds}
use tcp.Socket.Lossy.{LossyFdAdapter, lossy_adapter, lossy-Serves}
use tcp.Socket.Tun.{TunAdapter, tun_adapter}
use tcp.Socket.Tun.Alive.{Anything, tun-Serves, tun-IsAlive}
use tcp.Socket.Loop.Alive.{OpensAlive}

abbrev four_bytes : ℕ → List ℕ → Option (List ℕ × List ℕ)
four_bytes n d = some (take n (0x45 ∷ 0 ∷ 0 ∷ 20 ∷ []), d)

four_bytes-Gives : Gives (λ d. d) four_bytes
four_bytes-Gives = record {
  given = λ n d. (_, d, refl, omega (arith, length-take {A = ℕ} n (0x45 ∷ 0 ∷ 0 ∷ 20 ∷ [])), refl);
}

slow-Accepts : Accepts (λ d. d) slow
slow-Accepts = record { taken = slow_taken }

-- A generator that counts.
abbrev counter : ℕ → ℕ × ℕ
counter g = (g, g + 1)

abbrev idle : TunAdapter (List ℕ)
idle = record {
  base = record { cfg = adapter_config; listen = false };
  tun = new_descriptor;
  device = [];
}

tun-IsAlive_example :
    OpensAlive
      (λ n. n)
      pipe
      (λ k. k)
      pipe-Works
      config
      0
      adapter_config
      new_descriptor
      []
      rounds
      0
      Anything
      (tun_adapter (λ n. n) four_bytes slow)
      (tun-Serves (λ n. n) four_bytes slow (λ d. d) four_bytes-Gives slow-Accepts)
      idle
    × OpensAlive
        (λ n. n)
        pipe
        (λ k. k)
        pipe-Works
        config
        0
        adapter_config
        new_descriptor
        []
        rounds
        0
        {A = LossyFdAdapter (TunAdapter (List ℕ)) ℕ}
        (λ l. Anything l.adapter)
        (lossy_adapter (λ b. b.base.cfg) counter (tun_adapter (λ n. n) four_bytes slow))
        (lossy-Serves Anything
          (λ b. b.base.cfg)
          counter
          (tun_adapter (λ n. n) four_bytes slow)
          (tun-Serves (λ n. n) four_bytes slow (λ d. d) four_bytes-Gives slow-Accepts))
        (record { adapter = idle; rand = 7 })
tun-IsAlive_example =
    tun-IsAlive (λ n. n) four_bytes slow (λ d. d) four_bytes-Gives slow-Accepts (λ n. n) pipe
      (λ k. k) pipe-Works counter config 0 adapter_config new_descriptor [] rounds 0 idle 7
      (omega arith) (omega arith) (omega arith) (omega arith)
      ((refl, (refl, (refl, (refl, tt)))), (tt, tt))
