-- ===== src/Socket/Udp/Tests.antt =====
-- A network that keeps the datagrams that are sent, and gives the first one to whoever reads.
use tcp.Prelude.{
  ℕ, ◌+◌, refl, false, List, [], ◌∷◌, ◌++◌, some, arith, length, length-take, take, resize,
}
use tcp.FileDescriptor.{new_descriptor}
use tcp.Socket.Tests.{pipe, pipe-Works, config, endpoint, adapter_config, rounds}
use tcp.Socket.Udp.{Network, UdpAdapter, udp_adapter}
use tcp.Socket.Loop.Alive.{OpensAlive}
use tcp.Socket.Lossy.{LossyFdAdapter, lossy_adapter, lossy-Serves}
use tcp.Socket.Udp.Alive.{Delivers, Counted, udp-Serves, udp-IsAlive}

abbrev first : List (List ℕ) → List ℕ
first [] = []
first (d ∷ ds) = d

abbrev rest : List (List ℕ) → List (List ℕ)
rest [] = []
rest (d ∷ ds) = ds

abbrev one_wire : Network (List (List ℕ))
one_wire = record {
  sys_recvfrom = λ mtu n. some (
    record {
      sender = endpoint;
      buffer = resize mtu (first n);
      recv_len = length (take 65507 (first n));
    },
    rest n,
  );
  sys_sendmsg = λ to bytes n. some (length bytes, n ++ bytes ∷ []);
}

one_wire-Delivers : Delivers one_wire
one_wire-Delivers = record {
  arrives = λ mtu n. (_, _, refl, omega (arith, length-take 65507 (first n)));
  departs = λ to bytes n h. (n ++ bytes ∷ [], refl);
}

-- A generator that counts.
abbrev counter : ℕ → ℕ × ℕ
counter g = (g, g + 1)

abbrev idle : UdpAdapter (List (List ℕ))
idle = record {
  base = record { cfg = adapter_config; listen = false };
  sock = new_descriptor;
  beyond = (1 ∷ 2 ∷ 3 ∷ []) ∷ [];
}

udp-IsAlive_example :
    OpensAlive
      (λ n. n)
      pipe
      (λ k. k)
      pipe-Works
      config
      0
      adapter_config
      new_descriptor
      []
      rounds
      0
      Counted
      (udp_adapter one_wire)
      (udp-Serves one_wire one_wire-Delivers)
      idle
    × OpensAlive
        (λ n. n)
        pipe
        (λ k. k)
        pipe-Works
        config
        0
        adapter_config
        new_descriptor
        []
        rounds
        0
        {A = LossyFdAdapter (UdpAdapter (List (List ℕ))) ℕ}
        (λ l. Counted l.adapter)
        (lossy_adapter (λ b. b.base.cfg) counter (udp_adapter one_wire))
        (lossy-Serves Counted
          (λ b. b.base.cfg)
          counter
          (udp_adapter one_wire)
          (udp-Serves one_wire one_wire-Delivers))
        (record { adapter = idle; rand = 7 })
udp-IsAlive_example =
    udp-IsAlive (λ n. n) pipe (λ k. k) pipe-Works config 0 adapter_config new_descriptor [] rounds 0
      one_wire one_wire-Delivers counter idle 7 (omega arith) (omega arith) (omega arith)
      (omega arith) (omega arith) ((refl, (refl, (refl, (refl, tt)))), (tt, tt))
