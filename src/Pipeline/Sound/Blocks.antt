-- ===== src/Pipeline/Sound/Blocks.antt =====
-- What each thread makes of its block, as far as the next thread relies on it.
use ndisapi.Base.{
  Bool, false, ℕ, zero, suc, ◌≤◌, ◌≡◌, refl, sym, ap, ◌∙◌, arith, if◌then◌else◌, ◌==◌, List, [],
  ◌∷◌, ◌++◌, Option, none, some, length, replicate,
}
use ndisapi.Pipeline.Distribute.{Ready, arrived, Distributed}
use ndisapi.Pipeline.Rounds.{answers}
use ndisapi.Pipeline.{
  Packet, Request, Block, Callbacks, loaded, follow, make_block, empty_request,
  maximum_packet_block, write_mstcp, write_adapter,
}
use ndisapi.Pipeline.Threads.{Stage, reading, processing, mstcp_writing, adapter_writing, filled}
use ndisapi.Pipeline.Sound.{Fits, AllFit, none_left, more}

pub loaded-empty : (ps : List Packet) (r : Request) → r.packets_number ≡ 0 → loaded ps r ≡ some []
unfolding loaded follow
loaded-empty ps r e = ap (λ n. follow ps n r.buffers) e

pub AllFit-append :
    {h : ℕ} {i : Stage} {xs ys : List Block} → AllFit h i xs → AllFit h i ys → AllFit h i (xs ++ ys)
AllFit-append none_left t = t
AllFit-append (more f a) t = more f (AllFit-append a t)

pub AllFit-push :
    {h : ℕ} {i : Stage} {xs : List Block} {b : Block}
    → AllFit h i xs
    → Fits h i b
    → AllFit h i (xs ++ (b ∷ []))
AllFit-push a f = AllFit-append a (more f none_left)

pub make_block-Fits : (h : ℕ) → Fits h reading (make_block maximum_packet_block h)
unfolding make_block empty_request
make_block-Fits h = record {
  handle = refl;
  adapter_size = refl;
  mstcp_size = refl;
  small = omega arith;
  success = omega arith;
  spent = λ e. refl;
  adapter_load = ([], loaded-empty _ (empty_request maximum_packet_block h) refl);
  mstcp_load = ([], loaded-empty _ (empty_request maximum_packet_block h) refl);
  adapter_empty = λ _. refl;
  mstcp_empty = λ _. refl;
}

pub AllFit-blocks : (h n : ℕ) → AllFit h reading (replicate n (make_block maximum_packet_block h))
AllFit-blocks h zero = none_left
AllFit-blocks h (suc n) = more (make_block-Fits h) (AllFit-blocks h n)

pub filled-Fits :
    {h : ℕ} {b : Block} (ps : List Packet) (n : ℕ)
    → Fits h reading b
    → length ps ≡ length b.packets
    → n ≤ length b.packets
    → Fits h processing (filled b ps n)
filled-Fits {b} ps n f e le = record {
  handle = f.handle;
  adapter_size = f.adapter_size ∙ sym e;
  mstcp_size = f.mstcp_size ∙ sym e;
  small = omega (arith, f.small);
  success = omega arith;
  spent = λ e. cc;
  adapter_load = ([], loaded-empty ps b.write_adapter_request (f.adapter_empty refl));
  mstcp_load = ([], loaded-empty ps b.write_mstcp_request (f.mstcp_empty refl));
  adapter_empty = f.adapter_empty;
  mstcp_empty = f.mstcp_empty;
}

-- The reading thread also passes on a block that it could not fill.
pub unread-Fits : {h : ℕ} {b : Block} → Fits h reading b → Fits h processing b
unread-Fits f = record {
  handle = f.handle;
  adapter_size = f.adapter_size;
  mstcp_size = f.mstcp_size;
  small = f.small;
  success = f.success;
  spent = λ e. cc;
  adapter_load = f.adapter_load;
  mstcp_load = f.mstcp_load;
  adapter_empty = f.adapter_empty;
  mstcp_empty = f.mstcp_empty;
}

pub Fits-Ready : {h : ℕ} {b : Block} → Fits h processing b → Ready b
Fits-Ready f = record {
  adapter_empty = f.adapter_empty refl;
  mstcp_empty = f.mstcp_empty refl;
  adapter_size = f.adapter_size;
  mstcp_size = f.mstcp_size;
  small = f.small;
  success = f.success;
}

pub Distributed-Fits :
    {S : Type 0} {h : ℕ} {b b' : Block} (cs : Callbacks S) (u : S)
    → Fits h processing b
    → Distributed b b' (answers cs u b.read_request.adapter_handle (arrived b))
    → Fits h mstcp_writing b'
Distributed-Fits cs u f d = record {
  handle = d.same_handle ∙ f.handle;
  adapter_size = d.adapter_size;
  mstcp_size = d.mstcp_size;
  small = omega (arith, f.small, d.same_length);
  success = omega (arith, d.read_reset);
  spent = λ e. d.read_reset;
  adapter_load = (_, d.adapter_loaded);
  mstcp_load = (_, d.mstcp_loaded);
  adapter_empty = λ e. cc;
  mstcp_empty = λ e. cc;
}

unfoldable pub sent_mstcp : Block → Block
sent_mstcp b = record b {
  write_mstcp_request = record b.write_mstcp_request { packets_number = 0 };
}

unfoldable pub sent_adapter : Block → Block
sent_adapter b = record b {
  write_adapter_request = record b.write_adapter_request { packets_number = 0 };
}

-- The test of the number spares a call, but changes nothing else.
flush :
    (n : ℕ) (o : Option (List Packet)) (ps : List Packet) (b b' : Block)
    → o ≡ some ps
    → (n ≡ 0 → ◌≡◌ {A = Option (List Packet × Block)} (some ([], b)) (some (ps, b')))
    → (if n == 0 then some ([], b) else elim o as (λ _. Option (List Packet × Block)) [
      | none ↦ none
      | some qs ↦ some (qs, b')
    ])
      ≡ some (ps, b')
flush zero o ps b b' e z = z refl
flush (suc n) o ps b b' e z =
    let pick : Option (List Packet) → Option (List Packet × Block) = λ q.
      elim q as (λ _. Option (List Packet × Block)) [ none ↦ none | some qs ↦ some (qs, b') ] in
    ap (λ (t : Bool). if t then some ([], b) else pick o) (nonzero n) ∙ ap pick e
  where
    nonzero : (k : ℕ) → (suc k == 0) ≡ false
    nonzero k = ground arith

nothing_loaded :
    (ps : List Packet) (r : Request) {qs : List Packet}
    → loaded ps r ≡ some qs
    → r.packets_number ≡ 0
    → [] ≡ qs
nothing_loaded ps r e z = some-inj (sym (loaded-empty ps r z) ∙ e)
  where
    some-inj : {xs ys : List Packet} → some xs ≡ some ys → xs ≡ ys
    some-inj h = cc

pub write_mstcp_lem :
    (b : Block) (ps : List Packet)
    → loaded b.packets b.write_mstcp_request ≡ some ps
    → write_mstcp b ≡ some (ps, sent_mstcp b)
unfolding write_mstcp sent_mstcp
write_mstcp_lem b ps e = flush b.write_mstcp_request.packets_number _ ps b (sent_mstcp b) e (λ z.
    ap (λ qs. some (qs, b)) (nothing_loaded b.packets b.write_mstcp_request e z)
    ∙ ap
        (λ n. some (
          ps,
          record b { write_mstcp_request = record b.write_mstcp_request { packets_number = n } },
        ))
        z)

pub write_adapter_lem :
    (b : Block) (ps : List Packet)
    → loaded b.packets b.write_adapter_request ≡ some ps
    → write_adapter b ≡ some (ps, sent_adapter b)
unfolding write_adapter sent_adapter
write_adapter_lem b ps e =
    flush b.write_adapter_request.packets_number _ ps b (sent_adapter b) e (λ z.
      ap (λ qs. some (qs, b)) (nothing_loaded b.packets b.write_adapter_request e z)
      ∙ ap
          (λ n. some (
            ps,
            record b {
              write_adapter_request = record b.write_adapter_request { packets_number = n };
            },
          ))
          z)

pub sent_mstcp-Fits :
    {h : ℕ} {b : Block} → Fits h mstcp_writing b → Fits h adapter_writing (sent_mstcp b)
unfolding sent_mstcp
sent_mstcp-Fits {b} f = record {
  handle = f.handle;
  adapter_size = f.adapter_size;
  mstcp_size = f.mstcp_size;
  small = f.small;
  success = f.success;
  spent = λ e. f.spent refl;
  adapter_load = f.adapter_load;
  mstcp_load = ([], loaded-empty b.packets (sent_mstcp b).write_mstcp_request refl);
  adapter_empty = λ e. cc;
  mstcp_empty = λ e. refl;
}

pub sent_adapter-Fits :
    {h : ℕ} {b : Block} → Fits h adapter_writing b → Fits h reading (sent_adapter b)
unfolding sent_adapter
sent_adapter-Fits {b} f = record {
  handle = f.handle;
  adapter_size = f.adapter_size;
  mstcp_size = f.mstcp_size;
  small = f.small;
  success = f.success;
  spent = λ e. f.spent refl;
  adapter_load = ([], loaded-empty b.packets (sent_adapter b).write_adapter_request refl);
  mstcp_load = f.mstcp_load;
  adapter_empty = λ e. refl;
  mstcp_empty = λ e. f.mstcp_empty refl;
}
