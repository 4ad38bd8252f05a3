-- ===== src/Routes/ForwardQueue/Examples.antt =====
-- A channel as a list with its capacity, and queues over it.
use zenoh_plugin_ros2dds.Base.{
  ℕ, ◌≤◌, ◌<◌, ◌≡◌, refl, true, false, Option, none, some, List, [], ◌∷◌, ◌++◌, length, is_empty,
  ltb, if◌then◌else◌, arith,
}
use zenoh_plugin_ros2dds.Routes.ForwardQueue.{FwdCmd, msg, Channel, FwdQueue, new, push, pop}
use zenoh_plugin_ros2dds.Routes.ForwardQueue.Fifo.{IsFifo, IsReceived, IsCounted}
use zenoh_plugin_ros2dds.Routes.ForwardQueue.Push.{IsPushed, push-IsPushed}
use zenoh_plugin_ros2dds.Routes.ForwardQueue.Runs.{
  Op, push_op, pop_op, samples, run, IsLast, run-new-IsLast,
}

abbrev Listed : Type 0
Listed = ℕ × List FwdCmd

abbrev send_listed : FwdCmd → Listed → Option Listed
send_listed m q = if ltb (length q.1) q.0 then some (q.0, q.1 ++ m ∷ []) else none

abbrev receive_listed : Listed → Option (FwdCmd × Listed)
receive_listed (n, []) = none
receive_listed (n, x ∷ xs) = some (x, (n, xs))

instance abbrev listed_channel : Channel Listed
listed_channel = record {
  bounded = λ n. (n, []);
  len = λ q. length q.1;
  is_empty = λ q. is_empty q.1;
  try_send = send_listed;
  try_recv = receive_listed;
}

received_lem :
    (q : Listed) → IsReceived (λ (d : Listed). d.1) (λ (d : Listed). d.0) q.0 q.1 (receive_listed q)
received_lem (n, []) = refl
received_lem (n, x ∷ xs) = ((n, xs), refl, refl, refl)

send_room :
    (q : Listed) (m : FwdCmd)
    → length q.1 < q.0
    → (d : Listed) × (send_listed m q ≡ some d) × (d.1 ≡ q.1 ++ m ∷ []) × (d.0 ≡ q.0)
send_room q m h = ((q.0, q.1 ++ m ∷ []), ground arith, refl, refl)

send_full : (q : Listed) (m : FwdCmd) → q.0 ≤ length q.1 → send_listed m q ≡ none
send_full q m h = ground arith

instance abbrev listed_fifo : IsFifo Listed
listed_fifo = record {
  contents = λ d. d.1;
  capacity = λ d. d.0;
  bounded_lem = λ n h. (refl, refl);
  len_lem = λ q. refl;
  is_empty_lem = λ q. refl;
  try_recv_lem = received_lem;
  try_send_lem = send_room;
  try_send_full = send_full;
}

-- Two samples in a queue with a limit of two.
abbrev two_samples : FwdQueue Listed
two_samples = record {
  channel = (4096, msg (1 ∷ []) false ∷ msg (2 ∷ 2 ∷ []) true ∷ []);
  limit = 2;
  bytes = 3;
  dropped = 7;
}

two_samples-IsCounted : IsCounted two_samples
two_samples-IsCounted = (refl, omega arith, omega arith)

abbrev third_sample : FwdQueue Listed
third_sample = record {
  channel = (4096, msg (2 ∷ 2 ∷ []) true ∷ msg (3 ∷ 3 ∷ 3 ∷ []) false ∷ []);
  limit = 2;
  bytes = 5;
  dropped = 8;
}

-- The third sample evicts the first.
push_third : push (3 ∷ 3 ∷ 3 ∷ []) false two_samples ≡ some (third_sample, 1)
unfolding push pop
push_third = refl

push-IsPushed_example :
    (r : FwdQueue Listed × ℕ) × (push (3 ∷ 3 ∷ 3 ∷ []) false two_samples ≡ some r)
    × IsPushed (3 ∷ 3 ∷ 3 ∷ []) false two_samples r
push-IsPushed_example =
    push-IsPushed (3 ∷ 3 ∷ 3 ∷ []) false two_samples two_samples-IsCounted (omega arith)
      (omega arith) (omega arith)

-- Three samples, of which the first is popped.
abbrev three_ops : List Op
three_ops =
    push_op (1 ∷ []) false
    ∷ push_op (2 ∷ 2 ∷ []) true
    ∷ pop_op
    ∷ push_op (3 ∷ 3 ∷ 3 ∷ []) false
    ∷ []

run-new-IsLast_example :
    (r : FwdQueue Listed) × (run three_ops (new 2) ≡ some r) × IsLast 2 (samples three_ops) r
run-new-IsLast_example =
    run-new-IsLast 2 three_ops (omega arith) (omega arith)
      (omega arith, (omega arith, (tt, (omega arith, tt))))
