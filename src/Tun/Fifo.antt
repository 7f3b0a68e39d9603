-- ===== src/Tun/Fifo.antt =====
-- The device hands packets to the stack in the order in which they were read.
use nsproxy_rs.Base.{
  ◌≡◌, sym, ap, ◌∙◌, List, [], ◌∷◌, ◌++◌, Option, none, some, Bytes, take, append_assoc, append-nil,
}
use nsproxy_rs.Tun.{TunDevice, Read, nothing, packet, buffer_size, poll_read, receive}

-- What the event loop does with the device: a read from the descriptor, or a packet for smoltcp.
pub data Op : Type 0 where
  read : Read → Op
  deliver : Op

abbrev onto_received : Option Bytes → List Bytes × TunDevice → List Bytes × TunDevice
onto_received none r = r
onto_received (some p) r = (p ∷ r.0, r.1)

-- The packets that smoltcp receives, and the device afterwards.
abbrev pub run : TunDevice → List Op → List Bytes × TunDevice
run q [] = ([], q)
run q (read r ∷ ops) = run (poll_read q r).0 ops
run q (deliver ∷ ops) = onto_received (receive q).0 (run (receive q).1 ops)

-- The packets that the descriptor gives.
abbrev pub packets : List Op → List Bytes
packets [] = []
packets (read (packet (b ∷ bs)) ∷ ops) = take buffer_size (b ∷ bs) ∷ packets ops
packets (read _ ∷ ops) = packets ops
packets (deliver ∷ ops) = packets ops

-- No packet is lost, repeated or overtaken between the descriptor and the stack: those received
-- and those still queued are, in order, those queued before and those read since.
pub run-packets :
    (q : TunDevice) (ops : List Op) → (run q ops).0 ++ (run q ops).1 ≡ q ++ packets ops
unfolding poll_read receive
run-packets q [] = sym (append-nil q)
run-packets q (read nothing ∷ ops) = run-packets q ops
run-packets q (read (packet []) ∷ ops) = run-packets q ops
run-packets q (read (packet (b ∷ bs)) ∷ ops) =
    run-packets (q ++ take buffer_size (b ∷ bs) ∷ []) ops
    ∙ append_assoc q (take buffer_size (b ∷ bs) ∷ []) (packets ops)
run-packets [] (deliver ∷ ops) = run-packets [] ops
run-packets (p ∷ q) (deliver ∷ ops) = ap (◌∷◌ p) (run-packets q ops)
