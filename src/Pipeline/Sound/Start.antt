-- ===== src/Pipeline/Sound/Start.antt =====
-- What the steps of start_filter and the first step of stop_filter do to the threads.
use ndisapi.Base.{
  ℕ, ◌≤◌, ◌≡◌, sym, ap, arith, true, List, [], ◌++◌, some, length, length-append, length-replicate,
  replicate,
}
use mathlib.Core.Path.{subst}
use ndisapi.Pipeline.{Block, make_block, maximum_packet_block, maximum_block_num}
use ndisapi.Pipeline.Stages.{upd-elim, total}
use ndisapi.Pipeline.Threads.{
  FilterState, stopped, starting, running, stopping, Stage, reading, processing, mstcp_writing,
  adapter_writing, Controller, idle, initializing, spawning, signaling, System, upd, fresh,
}
use ndisapi.Pipeline.Sound.{
  AllFit, none_left, is_done, Local, Phase, begun, failed, creating, notifying, ended, Meets, Stock,
  load, Sound,
}
use ndisapi.Pipeline.Sound.Blocks.{AllFit-append, AllFit-blocks}
use ndisapi.Pipeline.Sound.States.{
  in_hand-done, when_initializing, empty-Local, nil-of_load, part-of_total,
}

module _ {S : Type 0} (s : System S) where
  -- The state of the filter and the place of its caller change, and no thread does.
  retag :
      {st : FilterState} {c : Controller}
      → Phase st c
      → ((i : Stage)
          → Meets (ended s.filter_state s.controller i) (s.pc i)
          → Meets (ended st c i) (s.pc i))
      → ((n : ℕ) → Stock s.filter_state s.controller n → Stock st c n)
      → Sound s
      → Sound (record s { filter_state = st; controller = c })
  retag ph m k g = record {
    phase = ph;
    local = g.local;
    threads = λ i. m i (g.threads i);
    stock = k (total (λ i. load (s.queue i) (s.pc i))) g.stock;
  }

  pub read_ended :
      {st : FilterState} {c : Controller}
      → s.filter_state ≡ st
      → s.controller ≡ c
      → (i : Stage) → Meets (ended s.filter_state s.controller i) (s.pc i)
      → Meets (ended st c i) (s.pc i)
  read_ended {c = c} e f i m =
      subst (λ st. Meets (ended st c i) (s.pc i)) e
        (subst (λ c. Meets (ended s.filter_state c i) (s.pc i)) f m)

  pub transported :
      {st : FilterState} {c : Controller}
      → s.filter_state ≡ st
      → s.controller ≡ c
      → (n : ℕ) → Stock s.filter_state s.controller n
      → Stock st c n
  transported {c = c} e f n m =
      subst (λ st. Stock st c n) e (subst (λ c. Stock s.filter_state c n) f m)

  pub begun-Sound :
      (h : ℕ)
      → Sound s
      → s.controller ≡ idle
      → s.filter_state ≡ stopped
      → Sound (record s { filter_state = starting; controller = initializing h })
  unfolding Stock
  begun-Sound h g e f = retag (begun h) (λ i m. read_ended f e i m) (λ n k. transported f e n k) g

  pub stopping-Sound :
      Sound s
      → s.controller ≡ idle
      → s.filter_state ≡ running
      → Sound (record s { filter_state = stopping; controller = signaling (some reading) })
  unfolding Stock Meets
  stopping-Sound g e f = retag (notifying (some reading)) (λ i m. tt) (λ n k. transported f e n k) g

  -- Where the filter is being started, nothing runs and the queues are empty.
  pub at_start :
      (h : ℕ)
      → Sound s
      → s.controller ≡ initializing h
      → ((i : Stage) → s.queue i ≡ []) × ((i : Stage) → is_done (s.pc i) ≡ true)
  unfolding Stock Meets
  at_start h g e =
      let st = when_initializing h g.phase e in
      let z = transported st e _ g.stock in
      (
        λ i.
            nil-of_load (s.queue i) (s.pc i)
              (omega (arith, z, part-of_total (λ j. load (s.queue j) (s.pc j)) i)),
        λ i. read_ended st e i (g.threads i),
      )

  -- The blocks that init_filter makes go into the empty queue of the reading thread.
  made : ℕ → ℕ → List Block
  made h n = s.queue reading ++ replicate n (make_block maximum_packet_block h)

  made-Local :
      (h n : ℕ)
      → ((i : Stage) → s.queue i ≡ [])
      → ((i : Stage) → is_done (s.pc i) ≡ true)
      → (i : Stage) → Local h i (upd s.queue reading (made h n) i) (s.pc i)
  unfolding made
  made-Local h n q d =
      upd-elim (λ i x. Local h i x (s.pc i)) reading
        (empty-Local h reading (AllFit-append (nothing reading) (AllFit-blocks h n)) (d reading))
        (λ i. empty-Local h i (nothing i) (d i))
    where
      nothing : (i : Stage) → AllFit h i (s.queue i)
      nothing i = subst (AllFit h i) (sym (q i)) none_left

  made-total :
      (h n : ℕ)
      → ((i : Stage) → s.queue i ≡ [])
      → ((i : Stage) → is_done (s.pc i) ≡ true)
      → total (λ i. load (upd s.queue reading (made h n) i) (s.pc i)) ≡ n
  unfolding made
  made-total h n q d = omega (
    arith,
    length-append (s.queue reading) (replicate n (make_block maximum_packet_block h)),
    length-replicate n (make_block maximum_packet_block h),
    ap length (q reading),
    ap length (q processing),
    ap length (q mstcp_writing),
    ap length (q adapter_writing),
    in_hand-done (s.pc reading) (d reading),
    in_hand-done (s.pc processing) (d processing),
    in_hand-done (s.pc mstcp_writing) (d mstcp_writing),
    in_hand-done (s.pc adapter_writing) (d adapter_writing),
  )

  pub started-Sound :
      (h : ℕ)
      → Sound s
      → s.controller ≡ initializing h
      → Sound (record s {
        filter_state = running;
        controller = spawning (some reading);
        queue =
            upd s.queue reading
              (s.queue reading ++ replicate maximum_block_num (make_block maximum_packet_block h));
        log = fresh h s.user;
      })
  unfolding Meets Stock made
  started-Sound h g e =
      let (q, d) = at_start h g e in
      record {
        phase = creating (some reading);
        local = made-Local h maximum_block_num q d;
        threads = d;
        stock = made-total h maximum_block_num q d;
      }

  pub unstarted-Sound :
      (h n : ℕ)
      → n ≤ maximum_block_num
      → Sound s
      → s.controller ≡ initializing h
      → Sound (record s {
        controller = idle;
        log = fresh h s.user;
        queue =
            upd s.queue reading
              (s.queue reading ++ replicate n (make_block maximum_packet_block h));
      })
  unfolding Meets Stock made
  unstarted-Sound h n le g e =
      let (q, d) = at_start h g e in
      let st = when_initializing h g.phase e in
      record {
        phase = subst (λ x. Phase x idle) (sym st) failed;
        local = made-Local h n q d;
        threads = subst (λ x. (i : Stage) → Meets (ended x idle i) (s.pc i)) (sym st) d;
        stock =
            subst
              (λ x. Stock x idle (total (λ i. load (upd s.queue reading (made h n) i) (s.pc i))))
              (sym st) (omega (arith, made-total h n q d));
      }
