-- ===== src/Simulator.antt =====
-- apps/network_simulator.cc: hosts on the networks of a router. Random numbers are arguments, what is
-- printed is left out, and a call that throws returns `none`.
pub mod Hosts
pub mod Arrives
mod Tests
use tcp.Prelude.{zero, suc, ℕ, List, [], ◌∷◌, Option, some, and_then}
use tcp.Buffer.{concatenate, list_of_string}
use tcp.Ethernet.{EthernetFrame}
use tcp.Network
use tcp.Network.{AsyncNetworkInterface}

-- `clear`: as many frames as the copy has leave the queue. Neither queue can run out here.
pub clear : List EthernetFrame → List EthernetFrame → List EthernetFrame
clear [] queue = queue
clear (f ∷ copy) [] = []
clear (f ∷ copy) (g ∷ queue) = clear copy queue

-- The frame with its payload in one buffer.
abbrev pub whole : EthernetFrame → EthernetFrame
whole f = record f { payload = list_of_string (concatenate f.payload) }

-- `deliver`
pub deliver : List EthernetFrame → AsyncNetworkInterface → Option AsyncNetworkInterface
deliver [] dst = some dst
deliver (f ∷ to_send) dst = and_then (Network.recv_frame dst (whole f)) (deliver to_send)

-- `clear` on the queue of an interface.
abbrev pub cleared : List EthernetFrame → AsyncNetworkInterface → AsyncNetworkInterface
cleared copy a = record a {
  interface = record a.interface { frames_out = clear copy a.interface.frames_out };
}

-- `exchange_frames` of two interfaces.
pub exchange_frames :
    AsyncNetworkInterface
    → AsyncNetworkInterface
    → Option (AsyncNetworkInterface × AsyncNetworkInterface)
exchange_frames x y =
    let x_frames = x.interface.frames_out in
    let y_frames = y.interface.frames_out in
    and_then (deliver x_frames y)
      (λ y'. and_then (deliver y_frames x) (λ x'. some (cleared x_frames x', cleared y_frames y')))

-- `exchange_frames` of three interfaces.
pub exchange_frames3 :
    AsyncNetworkInterface
    → AsyncNetworkInterface
    → AsyncNetworkInterface
    → Option (AsyncNetworkInterface × (AsyncNetworkInterface × AsyncNetworkInterface))
exchange_frames3 x y z =
    let x_frames = x.interface.frames_out in
    let y_frames = y.interface.frames_out in
    let z_frames = z.interface.frames_out in
    and_then (deliver x_frames y) (λ y1. and_then (deliver x_frames z) (λ z1.
      and_then (deliver y_frames x) (λ x1. and_then (deliver y_frames z1) (λ z2.
        and_then (deliver z_frames x1) (λ x2.
          and_then (deliver z_frames y1)
            (λ y2. some (cleared x_frames x2, (cleared y_frames y2, cleared z_frames z2))))))))

-- Exchanges of the frames of two interfaces, one after the other.
pub exchanges :
    ℕ
    → AsyncNetworkInterface
    → AsyncNetworkInterface
    → Option (AsyncNetworkInterface × AsyncNetworkInterface)
exchanges zero x y = some (x, y)
exchanges (suc n) x y = and_then (exchange_frames x y) (λ (x', y'). exchanges n x' y')
