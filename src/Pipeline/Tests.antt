-- ===== src/Pipeline/Tests.antt =====
-- Runs of queued_packet_filter: a session that reads a packet, a stop that comes between the test of
-- a predicate and the sleep, a start without memory, and a block with two packets.
use ndisapi.Base.{
  ℕ, ◌+◌, ◌≡◌, ◌≢◌, refl, inl, arith, false, List, [], ◌∷◌, none, some, replicate, length, ◌==◌,
  if◌then◌else◌,
}
use ndisapi.Pipeline.{
  Packet, Request, Block, pass, drop, revert, Answer, Callbacks, maximum_packet_block, make_block,
  process_block, loaded,
}
use ndisapi.Pipeline.Distribute.{Ready, arrived}
use ndisapi.Pipeline.Dealt.{Dealt, process_block-Dealt}
use ndisapi.Pipeline.Threads.{
  starting, running, stopping, reading, processing, mstcp_writing, adapter_writing, top, enter,
  checking, asleep, out, done, idle, initializing, spawning, signaling, joining, System, upd,
  filled, set_pc, pushed, taken, fresh, init,
}
use ndisapi.Pipeline.System.{
  Step, pass_top, leave_top, take_first, check, sleep, read, push, start_begin, start_done,
  start_failed, spawn, spawned, stop_begin, notify, notified, Reach, initial, later, Run, stay,
  step,
}
use ndisapi.Pipeline.Simple.{Read, Turn, turns}
use ndisapi.Pipeline.Simple.Rounds.{Whole, all_read}
use ndisapi.Pipeline.Simple.Turns.{turns-Dealt}
use ndisapi.Pipeline.Sound.Blocks.{make_block-Fits}
use ndisapi.Pipeline.Sound.{Sound, Fits}
use ndisapi.Pipeline.Sound.Keep.{Reach-Sound}
use ndisapi.Pipeline.Flow.{Flow}
use ndisapi.Pipeline.Flow.Keep.{Reach-Flow}
use ndisapi.Pipeline.Delivery.{Delivered, Reach-Delivered}
use ndisapi.Pipeline.Stuck.{Calm, Stuck, stop_filter-Stuck}
use ndisapi.Pipeline.Failed.{start_filter-failed}

-- The outgoing packets are counted, and the first of them is sent back.
abbrev count_sent : ℕ → ℕ → Packet → Answer ℕ
count_sent n h p = record { action = if n == 0 then revert else pass; packet = p; user = n + 1 }

abbrev drop_all : ℕ → ℕ → Packet → Answer ℕ
drop_all n h p = record { action = drop; packet = p; user = n }

abbrev callbacks : Callbacks ℕ
callbacks = record { outgoing = some count_sent; incoming = some drop_all }

abbrev sent_packet : Packet
sent_packet = record { device_flags = 1; frame = 7 ∷ [] }

abbrev received_packet : Packet
received_packet = record { device_flags = 2; frame = 8 ∷ [] }

abbrev request : ℕ → Request
request n = record {
  adapter_handle = 3;
  packets_number = 0;
  packets_success = n;
  buffers = replicate 3 none;
}

abbrev three_packets : Block
three_packets = record {
  packets = sent_packet ∷ received_packet ∷ sent_packet ∷ [];
  read_request = request 3;
  write_adapter_request = request 0;
  write_mstcp_request = request 0;
}

three_packets-Ready : Ready three_packets
three_packets-Ready = record {
  adapter_empty = refl;
  mstcp_empty = refl;
  adapter_size = refl;
  mstcp_size = refl;
  small = omega arith;
  success = omega arith;
}

process_block-Dealt_example :
    (u' : ℕ) × (b' : Block) × (outs : List Packet) × (ins : List Packet) × (process_block callbacks
        0 three_packets
      ≡ some (u', b'))
    × Dealt callbacks 3 0 (arrived three_packets) u' outs ins
    × (loaded b'.packets b'.write_adapter_request ≡ some outs)
    × (loaded b'.packets b'.write_mstcp_request ≡ some ins)
    × (b'.read_request.packets_success ≡ 0)
process_block-Dealt_example = process_block-Dealt callbacks 0 three_packets three_packets-Ready

-- start_filter for the adapter 3, up to its return
abbrev begun_3 : System ℕ
begun_3 = record (init 3 0) { filter_state = starting; controller = initializing 3 }

abbrev blocks : List Block
blocks = replicate 10 (make_block maximum_packet_block 3)

abbrev made_3 : System ℕ
made_3 = record begun_3 {
  filter_state = running;
  controller = spawning (some reading);
  queue = upd begun_3.queue reading blocks;
  log = fresh 3 0;
}

abbrev one_thread : System ℕ
one_thread = record (set_pc made_3 reading top) { controller = spawning (some processing) }

abbrev two_threads : System ℕ
two_threads = record (set_pc one_thread processing top) {
  controller = spawning (some mstcp_writing);
}

abbrev three_threads : System ℕ
three_threads = record (set_pc two_threads mstcp_writing top) {
  controller = spawning (some adapter_writing);
}

abbrev four_threads : System ℕ
four_threads = record (set_pc three_threads adapter_writing top) { controller = spawning none }

abbrev started : System ℕ
started = record four_threads { controller = idle }

started-Reach : Reach callbacks false started
started-Reach =
    let a : Reach callbacks false begun_3 = later (initial 3 0) (start_begin 3 refl refl) in
    let b : Reach callbacks false made_3 = later a (start_done 3 refl) in
    let c : Reach callbacks false one_thread = later b (spawn reading refl) in
    let d : Reach callbacks false two_threads = later c (spawn processing refl) in
    let e : Reach callbacks false three_threads = later d (spawn mstcp_writing refl) in
    let f : Reach callbacks false four_threads = later e (spawn adapter_writing refl) in
    later f (spawned refl)

-- The reading thread takes a block, reads one packet and pushes the block.
abbrev first_block : Block
first_block = make_block maximum_packet_block 3

abbrev entered : System ℕ
entered = set_pc started reading enter

abbrev holding : System ℕ
holding = taken entered reading first_block (replicate 9 first_block)

abbrev after_read : System ℕ
after_read =
    record (set_pc holding reading (out (filled first_block (replicate 510 sent_packet) 1))) {
      log = record holding.log { read = sent_packet ∷ [] };
    }

abbrev in_queue : System ℕ
in_queue = pushed after_read reading (filled first_block (replicate 510 sent_packet) 1)

in_queue-Reach : Reach callbacks false in_queue
unfolding make_block
in_queue-Reach =
    let a : Reach callbacks false entered = later started-Reach (pass_top reading refl refl) in
    let b : Reach callbacks false holding =
      later a (take_first reading first_block (replicate 9 first_block) refl refl (inl refl)) in
    let c : Reach callbacks false after_read =
      later b (read first_block (replicate 510 sent_packet) 1 refl refl (omega arith)) in
    later c (push reading (filled first_block (replicate 510 sent_packet) 1) refl (λ e. cc))

Reach-Sound_example : Sound in_queue
Reach-Sound_example = Reach-Sound in_queue-Reach

Reach-Flow_example : Flow callbacks in_queue
Reach-Flow_example = Reach-Flow in_queue-Reach refl

Reach-Delivered_example : (t : System ℕ) × Delivered callbacks in_queue t
Reach-Delivered_example = Reach-Delivered in_queue-Reach refl refl

-- init_filter fails with two blocks made.
abbrev failed_start : System ℕ
failed_start = record begun_3 {
  controller = idle;
  log = fresh 3 0;
  queue = upd begun_3.queue reading (replicate 2 (make_block maximum_packet_block 3));
}

failed_start-Reach : Reach callbacks false failed_start
failed_start-Reach =
    let a : Reach callbacks false begun_3 = later (initial 3 0) (start_begin 3 refl refl) in
    later a (start_failed 3 2 refl (omega arith))

start_filter-failed_example : ¬ Step callbacks false failed_start started
start_filter-failed_example = start_filter-failed failed_start started failed_start-Reach refl refl

-- The thread that writes to the stack tests its predicate, and stop_filter sends its notifications
-- before it sleeps.
abbrev testing : System ℕ
testing = set_pc (set_pc started mstcp_writing enter) mstcp_writing checking

abbrev stopping_now : System ℕ
stopping_now = record testing { filter_state = stopping; controller = signaling (some reading) }

abbrev told_one : System ℕ
told_one = record (set_pc stopping_now reading top) { controller = signaling (some processing) }

abbrev told_two : System ℕ
told_two = record (set_pc told_one processing top) { controller = signaling (some mstcp_writing) }

abbrev told_three : System ℕ
told_three = record (set_pc told_two mstcp_writing checking) {
  controller = signaling (some adapter_writing);
}

abbrev told_four : System ℕ
told_four = record (set_pc told_three adapter_writing top) { controller = signaling none }

abbrev overslept : System ℕ
overslept = set_pc (record told_four { controller = joining (some reading) }) mstcp_writing asleep

overslept-Reach : Reach callbacks false overslept
overslept-Reach =
    let a : Reach callbacks false (set_pc started mstcp_writing enter) =
      later started-Reach (pass_top mstcp_writing refl refl) in
    let b : Reach callbacks false testing = later a (check mstcp_writing (inl refl) refl refl) in
    let c : Reach callbacks false stopping_now = later b (stop_begin refl refl) in
    let d : Reach callbacks false told_one = later c (notify reading refl) in
    let e : Reach callbacks false told_two = later d (notify processing refl) in
    let f : Reach callbacks false told_three = later e (notify mstcp_writing refl) in
    let g : Reach callbacks false told_four = later f (notify adapter_writing refl) in
    let h : Reach callbacks false (record told_four { controller = joining (some reading) }) =
      later g (notified refl) in
    later h (sleep mstcp_writing refl)

overslept-Stuck : Stuck overslept
unfolding Calm
overslept-Stuck = record {
  stage = reading;
  calls = refl;
  ahead = refl;
  ends = refl;
  calm = λ i. elim i as (λ j. Calm j (overslept.pc j)) [
    | reading ↦ tt
    | processing ↦ refl
    | mstcp_writing ↦ refl
    | adapter_writing ↦ tt
  ];
}

abbrev one_ended : System ℕ
one_ended = set_pc overslept reading done

one_ended-Run : Run callbacks false overslept one_ended
one_ended-Run = step stay (leave_top reading refl (λ e. cc))

stop_filter-Stuck_example :
    (one_ended.pc mstcp_writing ≡ asleep)
    × (one_ended.filter_state ≡ stopping)
    × (one_ended.controller ≢ idle)
stop_filter-Stuck_example = stop_filter-Stuck overslept one_ended overslept-Stuck one_ended-Run

-- simple_packet_filter, with two reads of a packet each
abbrev two_reads : List Read
two_reads =
    record { packets = replicate 510 sent_packet; success = 1 }
    ∷ record { packets = replicate 510 received_packet; success = 1 }
    ∷ []

turns-Dealt_example :
    (t : Turn ℕ) × (turns callbacks 0 first_block two_reads ≡ some t)
    × Dealt callbacks 3 0 (all_read two_reads) t.user t.to_network t.to_stack
    × Fits 3 reading t.block
    × (length t.block.packets ≡ length first_block.packets)
unfolding make_block Whole
turns-Dealt_example =
    turns-Dealt callbacks 3 0 first_block two_reads (make_block-Fits 3)
      (refl, omega arith, (refl, omega arith, tt))
