-- ===== src/Socket/Tun.antt =====
-- libsponge/tcp_helpers/tuntap_adapter.hh: TCPOverIPv4OverTunFdAdapter on its device, as the adapter of a
-- TCPSpongeSocket. `sys_read` and `sys_writev` are the system calls on the device.
pub mod Alive
mod Tests
use tcp.Prelude.{ℕ, suc, ◌-◌, true, List, Option, none, some, length, and_then, u64_mod}
use tcp.Buffer.{concatenate}
use tcp.Segment.{TcpSegment}
use tcp.Adapter.{FdAdapter, set_listening, tun_read, tun_write}
use tcp.FileDescriptor
use tcp.FileDescriptor.{FileDescriptor, Written, still_writing, thrown, written}
use tcp.Socket.{DatagramAdapter}

-- TCPOverIPv4OverTunFdAdapter: its base, and its TunFD with the device beyond.
pub record TunAdapter (D : Type 0) : Type 0 where
  pub base : FdAdapter
  pub tun : FileDescriptor
  pub device : D

-- The default `limit` of `FileDescriptor::read`.
abbrev pub default_limit : ℕ
default_limit = u64_mod - 1

module _ {D : Type 0} (reread : ℕ → ℕ) (sys_read : ℕ → D → Option (List ℕ × D))
    (sys_writev : List ℕ → D → Option (ℕ × D)) where
  -- `TCPOverIPv4OverTunFdAdapter::read`, from the device on.
  pub read_tun : TunAdapter D → Option (Option TcpSegment × TunAdapter D)
  read_tun a =
      and_then (FileDescriptor.read sys_read default_limit a.tun a.device) (λ (bytes, (fd, d)).
        and_then (tun_read reread a.base bytes)
          (λ (seg, base). some (seg, record { base = base; tun = fd; device = d })))

  -- What is left once the device has the datagram.
  pub after_write : TunAdapter D → Written D → Option (TunAdapter D)
  after_write a still_writing = none
  after_write a thrown = none
  after_write a (written n fd d) = some (record a { tun = fd; device = d })

  -- `TCPOverIPv4OverTunFdAdapter::write`, to the device; a system call for each byte and one more are enough.
  pub write_tun : TcpSegment → TunAdapter D → Option (TunAdapter D)
  unfolding after_write
  write_tun seg a = and_then (tun_write a.base seg) (λ datagram.
      let bytes = concatenate datagram in
      after_write a
        (FileDescriptor.write sys_writev (suc (length bytes)) bytes true a.tun a.device))

  -- TCPOverIPv4OverTunFdAdapter is what TCPSpongeSocket uses.
  unfoldable pub tun_adapter : DatagramAdapter (TunAdapter D)
  tun_adapter = record {
    fd = λ a. a.tun;
    read = read_tun;
    write = write_tun;
    tick = λ ms a. some a;
    config_mut = λ c a. record a { base = record a.base { cfg = c } };
    set_listening = λ l a. record a { base = set_listening a.base l };
  }
