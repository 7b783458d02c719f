-- ===== src/Adapter/Tests.antt =====
-- Two ends of a connection over their devices.
use tcp.Prelude.{◌≡◌, refl, false, true, [], ◌∷◌, some, arith}
use tcp.Buffer.{Buffer, BufferList, str, of_string, concatenate}
use tcp.Segment.{TcpSegment, default_header}
use tcp.Adapter.{FdAdapter, Endpoint, tun_read, tun_write}
use tcp.Adapter.RoundTrip.{FitsDatagram, IsPeer, arrived, tun_read-tun_write}

abbrev left_end : Endpoint
left_end = record { ip = 0x0a000001; port = 1024 }

abbrev right_end : Endpoint
right_end = record { ip = 0x0a000002; port = 80 }

abbrev adapter : Endpoint → Endpoint → FdAdapter
adapter s d = record {
  cfg = record { source = s; destination = d; loss_rate_dn = 0; loss_rate_up = 0 };
  listen = false;
}

abbrev a_segment : TcpSegment
a_segment = record {
  header = record default_header { seqno = 77; syn = true; win = 1000 };
  payload = of_string (104 ∷ 105 ∷ []);
}

fits : FitsDatagram a_segment
unfolding str of_string
fits = omega arith

ends : IsPeer (adapter left_end right_end) (adapter right_end left_end)
ends = record { same_source = refl; same_destination = refl; connected = refl }

tun_read-tun_write_example :
    (bl : BufferList) × (rest : Buffer) × (tun_write (adapter left_end right_end) a_segment
      ≡ some bl)
    × (tun_read (λ n. n) (adapter right_end left_end) (concatenate bl)
        ≡ some (
          some (arrived (adapter left_end right_end) a_segment rest),
          adapter right_end left_end,
        ))
    × (str rest ≡ str a_segment.payload)
tun_read-tun_write_example =
    tun_read-tun_write (λ n. n) (adapter left_end right_end) (adapter right_end left_end) a_segment
      (omega arith) (omega arith) fits ends
