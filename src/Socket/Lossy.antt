-- ===== src/Socket/Lossy.antt =====
-- libsponge/tcp_helpers/lossy_fd_adapter.hh: LossyFdAdapter on any adapter, as the adapter of a
-- TCPSpongeSocket. `random` is the generator of the standard library, on its state.
use tcp.Prelude.{
  ℕ, Bool, true, false, Option, none, some, ◌==◌, refl, if◌then◌else◌, and_then, Returns, one_of,
}
use tcp.Segment.{TcpSegment}
use tcp.Adapter.{FdAdapterConfig, should_drop}
use tcp.Socket.{DatagramAdapter}
use tcp.Socket.Running.{Serves}

-- LossyFdAdapter: the adapter and the generator.
pub record LossyFdAdapter (A G : Type 0) : Type 0 where
  pub adapter : A
  pub rand : G

-- The generator is only asked where there is a loss rate.
pub draw_drop : {G : Type 0} → (G → ℕ × G) → FdAdapterConfig → Bool → G → Bool × G
draw_drop random cfg uplink g =
    let loss = if uplink then cfg.loss_rate_up else cfg.loss_rate_dn in
    if loss == 0 then (false, g) else (should_drop cfg uplink (random g).0, (random g).1)

module _ {A G : Type 0} (config : A → FdAdapterConfig) (random : G → ℕ × G)
    (adapter : DatagramAdapter A) where
  -- `LossyFdAdapter::read`
  pub read_lossy : LossyFdAdapter A G → Option (Option TcpSegment × LossyFdAdapter A G)
  read_lossy l = and_then (adapter.read l.adapter) (λ (ret, a).
      let (drop, g) = draw_drop random (config a) false l.rand in
      some (if drop then none else ret, record { adapter = a; rand = g }))

  -- `LossyFdAdapter::write`
  pub write_lossy : TcpSegment → LossyFdAdapter A G → Option (LossyFdAdapter A G)
  write_lossy seg l =
      let (drop, g) = draw_drop random (config l.adapter) true l.rand in
      if drop
      then some (record l { rand = g })
      else and_then (adapter.write seg l.adapter) (λ a. some (record { adapter = a; rand = g }))

  -- LossyFdAdapter, with the calls that it passes through.
  unfoldable pub lossy_adapter : DatagramAdapter (LossyFdAdapter A G)
  lossy_adapter = record {
    fd = λ l. adapter.fd l.adapter;
    read = read_lossy;
    write = write_lossy;
    tick = λ ms l. and_then (adapter.tick ms l.adapter) (λ a. some (record l { adapter = a }));
    config_mut = λ c l. record l { adapter = adapter.config_mut c l.adapter };
    set_listening = λ b l. record l { adapter = adapter.set_listening b l.adapter };
  }

-- The losses break no adapter.
pub lossy-Serves :
    {A G : Type 0} (Fine : A → Type 0) (config : A → FdAdapterConfig) (random : G → ℕ × G)
    (adapter : DatagramAdapter A)
    → Serves Fine adapter
    → Serves {A = LossyFdAdapter A G} (λ l. Fine l.adapter) (lossy_adapter config random adapter)
unfolding lossy_adapter read_lossy write_lossy
lossy-Serves Fine config random adapter ok = record {
  counts_reads = λ l h.
      let (seg, a, e, fine, counted) = ok.counts_reads l.adapter h in
      let drop = draw_drop random (config a) false l.rand in
      (
        if drop.0 then none else seg,
        record { adapter = a; rand = drop.1 },
        rw e refl,
        fine,
        counted,
      );
  writes = λ seg l fits h.
      let (a, e, fine) = ok.writes seg l.adapter fits h in
      let drop = draw_drop random (config l.adapter) true l.rand in
      one_of (Returns (λ l. Fine l.adapter)) drop.0 _ _ (_, refl, h)
        (record { adapter = a; rand = drop.1 }, rw e refl, fine);
  ticks = λ ms l h.
      let (a, e, fine) = ok.ticks ms l.adapter h in (record l { adapter = a }, rw e refl, fine);
  configures = λ c l h. ok.configures c l.adapter h;
  listens = λ b l h. ok.listens b l.adapter h;
}
