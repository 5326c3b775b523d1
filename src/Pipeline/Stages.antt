-- ===== src/Pipeline/Stages.antt =====
-- Families over the four stages: an entry exchanged, and sums.
use ndisapi.Base.{ℕ, ◌+◌, ◌≡◌, refl, arith}
use ndisapi.Pipeline.Threads.{
  Stage, reading, processing, mstcp_writing, adapter_writing, next_stage, upd,
}

pub upd-elim {ℓ κ} :
    {A : Type ℓ} (P : Stage → A → Type κ) {f : Stage → A} {v : A} (i : Stage)
    → P i v
    → ((j : Stage) → P j (f j))
    → (j : Stage) → P j (upd f i v j)
upd-elim P reading h r reading = h
upd-elim P reading h r processing = r processing
upd-elim P reading h r mstcp_writing = r mstcp_writing
upd-elim P reading h r adapter_writing = r adapter_writing
upd-elim P processing h r reading = r reading
upd-elim P processing h r processing = h
upd-elim P processing h r mstcp_writing = r mstcp_writing
upd-elim P processing h r adapter_writing = r adapter_writing
upd-elim P mstcp_writing h r reading = r reading
upd-elim P mstcp_writing h r processing = r processing
upd-elim P mstcp_writing h r mstcp_writing = h
upd-elim P mstcp_writing h r adapter_writing = r adapter_writing
upd-elim P adapter_writing h r reading = r reading
upd-elim P adapter_writing h r processing = r processing
upd-elim P adapter_writing h r mstcp_writing = r mstcp_writing
upd-elim P adapter_writing h r adapter_writing = h

-- Two families that change at the same stage.
pub upd-elim_pair {ℓ ℓ' κ} :
    {A : Type ℓ} {B : Type ℓ'} (P : Stage → A → B → Type κ) {f : Stage → A} {g : Stage → B} {v : A}
    {w : B} (i : Stage)
    → P i v w
    → ((j : Stage) → P j (f j) (g j))
    → (j : Stage) → P j (upd f i v j) (upd g i w j)
upd-elim_pair P reading h r reading = h
upd-elim_pair P reading h r processing = r processing
upd-elim_pair P reading h r mstcp_writing = r mstcp_writing
upd-elim_pair P reading h r adapter_writing = r adapter_writing
upd-elim_pair P processing h r reading = r reading
upd-elim_pair P processing h r processing = h
upd-elim_pair P processing h r mstcp_writing = r mstcp_writing
upd-elim_pair P processing h r adapter_writing = r adapter_writing
upd-elim_pair P mstcp_writing h r reading = r reading
upd-elim_pair P mstcp_writing h r processing = r processing
upd-elim_pair P mstcp_writing h r mstcp_writing = h
upd-elim_pair P mstcp_writing h r adapter_writing = r adapter_writing
upd-elim_pair P adapter_writing h r reading = r reading
upd-elim_pair P adapter_writing h r processing = r processing
upd-elim_pair P adapter_writing h r mstcp_writing = r mstcp_writing
upd-elim_pair P adapter_writing h r adapter_writing = h

abbrev pub total : (Stage → ℕ) → ℕ
total f = f reading + f processing + f mstcp_writing + f adapter_writing

pub total-upd {ℓ ℓ'} :
    {A : Type ℓ} {B : Type ℓ'} (c : Stage → A → B → ℕ) (f : Stage → A) (g : Stage → B) (v : A)
    (w : B) (i : Stage)
    → total (λ j. c j (upd f i v j) (upd g i w j)) + c i (f i) (g i)
      ≡ total (λ j. c j (f j) (g j)) + c i v w
total-upd c f g v w reading = omega arith
total-upd c f g v w processing = omega arith
total-upd c f g v w mstcp_writing = omega arith
total-upd c f g v w adapter_writing = omega arith

pub total-upd_one {ℓ ℓ'} :
    {A : Type ℓ} {B : Type ℓ'} (c : Stage → A → B → ℕ) (f : Stage → A) (g : Stage → B) (w : B)
    (i : Stage)
    → total (λ j. c j (f j) (upd g i w j)) + c i (f i) (g i)
      ≡ total (λ j. c j (f j) (g j)) + c i (f i) w
total-upd_one c f g w reading = omega arith
total-upd_one c f g w processing = omega arith
total-upd_one c f g w mstcp_writing = omega arith
total-upd_one c f g w adapter_writing = omega arith

pub upd-next {ℓ} :
    {A : Type ℓ} (f : Stage → A) (i : Stage) (v : A) → upd f i v (next_stage i) ≡ f (next_stage i)
upd-next f reading v = refl
upd-next f processing v = refl
upd-next f mstcp_writing v = refl
upd-next f adapter_writing v = refl
