-- ===== src/Pipeline/Flow/Work.antt =====
-- What the work of a thread does to the packets on their way.
use ndisapi.Base.{ℕ, ◌≡◌, refl, sym, ap, ◌∙◌, List, [], ◌++◌, append_assoc, some}
use ndisapi.Pipeline.Distribute.{arrived}
use ndisapi.Pipeline.Rounds.{answers, final, routed}
use ndisapi.Pipeline.{Packet, Block, Callbacks, to_adapter, to_mstcp}
use ndisapi.Pipeline.Threads.{
  FilterState, running, Stage, reading, processing, mstcp_writing, adapter_writing, Pc, done, hold,
  out, Controller, spawning, System, upd, set_pc, fresh,
}
use ndisapi.Pipeline.Flow.{
  for_stack, for_network, of_taken, of_ready, of_queue, segment, waiting, stack_bound,
  network_bound, Flow,
}
use ndisapi.Pipeline.Flow.Segments.{answers-append, final-append, routed-append}
use ndisapi.Pipeline.Flow.Order.{at_end, at_front, across, empty-segment}

module _ {S : Type 0} {cs : Callbacks S} where
  -- No packet moves relative to another.
  pub steady :
      {s : System S} (fs : FilterState) (c : Controller) (q : Stage → List Block) (p : Stage → Pc)
      → ((f : Block → List Packet) (j : Stage)
          → segment f (record s { filter_state = fs; controller = c; queue = q; pc = p }) j
            ≡ segment f s j)
      → Flow cs s
      → Flow cs (record s { filter_state = fs; controller = c; queue = q; pc = p })
  unfolding waiting stack_bound network_bound
  steady {s} fs c q p seg w =
      let t : System S = record s { filter_state = fs; controller = c; queue = q; pc = p } in
      record {
        processed = w.processed;
        read = w.read ∙ ap (λ x. w.processed ++ x) (sym (seg arrived reading));
        user = w.user;
        stack = w.stack ∙ ap (λ x. s.log.to_stack ++ x) (sym (seg for_stack processing));
        network =
            w.network
            ∙ ap (λ x. s.log.to_network ++ (x ++ segment for_network s processing))
                (sym (seg for_network mstcp_writing))
            ∙ ap (λ x. s.log.to_network ++ (segment for_network t mstcp_writing ++ x))
                (sym (seg for_network processing));
      }

  pub read-Flow :
      {s : System S} (b b' : Block) (x : List Packet)
      → s.pc reading ≡ hold b
      → arrived b' ≡ x
      → Flow cs s
      → Flow cs
          (record (set_pc s reading (out b')) { log = record s.log { read = s.log.read ++ x } })
  unfolding waiting stack_bound network_bound segment
  read-Flow {s} b b' x e a w = record {
    processed = w.processed;
    read =
        at_end w.processed (of_taken arrived (s.pc processing))
          (of_queue arrived (s.queue processing)) x w.read (ap (of_ready arrived) e)
        ∙ ap
            (λ y.
              w.processed
              ++ (of_taken arrived (s.pc processing)
                  ++ (of_queue arrived (s.queue processing) ++ y)))
            (sym a);
    user = w.user;
    stack = w.stack;
    network = w.network;
  }

  -- A read that ends without a packet.
  pub ended-Flow :
      {s : System S} (b : Block)
      → s.pc reading ≡ hold b
      → arrived b ≡ []
      → Flow cs s
      → Flow cs (set_pc s reading (out b))
  unfolding waiting stack_bound network_bound segment
  ended-Flow {s} b e a w = record {
    processed = w.processed;
    read =
        w.read
        ∙ ap
            (λ y.
              w.processed
              ++ (of_taken arrived (s.pc processing)
                  ++ (of_queue arrived (s.queue processing) ++ y)))
            (ap (of_ready arrived) e ∙ sym a);
    user = w.user;
    stack = w.stack;
    network = w.network;
  }

  pub process-Flow :
      {s : System S} (b b' : Block) (u : S)
      → s.pc processing ≡ hold b
      → (let xs = answers cs s.user s.log.handle (arrived b) in
          (u ≡ final s.user xs)
          × (for_network b' ≡ routed to_adapter xs)
          × (for_stack b' ≡ routed to_mstcp xs))
      → Flow cs s
      → Flow cs (record (set_pc s processing (out b')) { user = u })
  unfolding waiting stack_bound network_bound segment
  process-Flow {s} b b' u e (fu, fn, fs) w =
      let A = answers cs s.log.origin s.log.handle w.processed in
      let X = answers cs s.user s.log.handle (arrived b) in
      let both : answers cs s.log.origin s.log.handle (w.processed ++ arrived b) ≡ A ++ X =
        answers-append cs s.log.origin s.log.handle w.processed (arrived b)
        ∙ ap (λ v. A ++ answers cs v s.log.handle (arrived b)) (sym w.user) in
      record {
        processed = w.processed ++ arrived b;
        read = at_front w.processed (arrived b) _ w.read (ap (of_taken arrived) e);
        user =
            fu
            ∙ ap (λ v. final v X) w.user
            ∙ sym (final-append s.log.origin A X)
            ∙ ap (final s.log.origin) (sym both);
        stack =
            ap (routed to_mstcp) both
            ∙ routed-append to_mstcp A X
            ∙ ap (λ y. routed to_mstcp A ++ y) (sym fs)
            ∙ at_end s.log.to_stack (of_taken for_stack (s.pc mstcp_writing))
                (of_queue for_stack (s.queue mstcp_writing)) (for_stack b') w.stack
                (ap (of_ready for_stack) e);
        network =
            let N = segment for_network s mstcp_writing in
            ap (routed to_adapter) both
            ∙ routed-append to_adapter A X
            ∙ ap (λ y. routed to_adapter A ++ y) (sym fn)
            ∙ at_end (s.log.to_network ++ N) (of_taken for_network (s.pc mstcp_writing))
                (of_queue for_network (s.queue mstcp_writing)) (for_network b')
                (w.network ∙ sym (append_assoc s.log.to_network N _)) (ap (of_ready for_network) e)
            ∙ append_assoc s.log.to_network N _;
      }

  pub mstcp-Flow :
      {s : System S} (b b' : Block) (x : List Packet)
      → s.pc mstcp_writing ≡ hold b
      → for_stack b ≡ x
      → for_network b' ≡ for_network b
      → Flow cs s
      → Flow cs (record (set_pc s mstcp_writing (out b')) {
        log = record s.log { to_stack = s.log.to_stack ++ x };
      })
  unfolding waiting stack_bound network_bound segment
  mstcp-Flow {s} b b' x e a n w = record {
    processed = w.processed;
    read = w.read;
    user = w.user;
    stack = at_front s.log.to_stack x _ w.stack (ap (of_taken for_stack) e ∙ a);
    network =
        w.network
        ∙ ap (λ y. s.log.to_network ++ y)
            (across (of_taken for_network (s.pc adapter_writing))
              (of_queue for_network (s.queue adapter_writing)) (for_network b') _
              (ap (of_ready for_network) e) (ap (of_taken for_network) e ∙ sym n));
  }

  pub adapter-Flow :
      {s : System S} (b b' : Block) (x : List Packet)
      → s.pc adapter_writing ≡ hold b
      → for_network b ≡ x
      → Flow cs s
      → Flow cs (record (set_pc s adapter_writing (out b')) {
        log = record s.log { to_network = s.log.to_network ++ x };
      })
  unfolding waiting stack_bound network_bound segment
  adapter-Flow {s} b b' x e a w =
      let N : List Packet =
        of_queue for_network (s.queue adapter_writing)
        ++ of_ready for_network (s.pc mstcp_writing) in
      let M : List Packet = segment for_network s processing in
      record {
        processed = w.processed;
        read = w.read;
        user = w.user;
        stack = w.stack;
        network =
            at_front s.log.to_network x (N ++ M)
              (w.network
                ∙ ap (λ y. s.log.to_network ++ y)
                    (append_assoc (of_taken for_network (s.pc adapter_writing)) N M))
              (ap (of_taken for_network) e ∙ a);
      }

  -- What start_filter finds: nothing on the way.
  pub fresh-Flow :
      (s : System S) (h : ℕ) (x : List Block)
      → ((i : Stage) → s.pc i ≡ done)
      → ((i : Stage) → s.queue i ≡ [])
      → Flow cs (record s {
        filter_state = running;
        controller = spawning (some reading);
        queue = upd s.queue reading x;
        log = fresh h s.user;
      })
  unfolding waiting stack_bound network_bound answers final routed
  fresh-Flow s h x d q =
      let t : System S = record s {
        filter_state = running;
        controller = spawning (some reading);
        queue = upd s.queue reading x;
        log = fresh h s.user;
      } in
      record {
        processed = [];
        read = sym (empty-segment arrived t reading (d processing) (q processing) (d reading));
        user = refl;
        stack = sym (
            empty-segment for_stack t processing (d mstcp_writing) (q mstcp_writing)
              (d processing));
        network =
            sym (
              empty-segment for_network t processing (d mstcp_writing) (q mstcp_writing)
                (d processing))
            ∙ ap (λ y. y ++ segment for_network t processing)
                (sym (
                  empty-segment for_network t mstcp_writing (d adapter_writing) (q adapter_writing)
                    (d mstcp_writing)));
      }
