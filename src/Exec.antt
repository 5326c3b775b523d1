-- ===== src/Exec.antt =====
-- How a method of CNdisApi runs: it reads and changes the world outside the object, the table of
-- CWow64Helper and the object's m_BytesReturned, and it may fault. The operating system and the
-- driver are the record `Env` of functions on an abstract state: the library only calls them.
use ndisapi.Base.{
  ℕ, ◌+◌, ◌-◌, ◌≡◌, ◌∙◌, refl, ap, Bool, true, false, Option, none, some, List, if◌then◌else◌,
}
use ndisapi.Driver.{Ioctl, In, Out, IntermediateBuffer}
use ndisapi.Handles.{HandleTable, from_32_to_64}

-- What ::DeviceIoControl gives back: its result, the output buffer, the bytes returned.
pub record Reply (S A : Type 0) : Type 0 where
  pub ok : Bool
  pub out : A
  pub returned : ℕ
  pub next : S

pub record Env (S : Type 0) : Type 0 where
  -- ::DeviceIoControl: whether the structures are the WOW64 ones, the code, the input buffer and its
  -- size, the output buffer and its size.
  pub ioctl : S → Bool → (c : Ioctl) → In c → ℕ → Out c → ℕ → Reply S (Out c)
  -- ERROR_IO_PENDING == GetLastError(), after a request
  pub io_pending : S → Bool
  -- WaitForSingleObject on the event of a pending request, which leaves the output buffer filled
  pub wait : S → (c : Ioctl) → Out c → Out c × S
  pub malloc : S → ℕ → Bool × S
  -- what an uninitialised INTERMEDIATE_BUFFER_WOW64 on the stack, or a block of malloc, holds
  pub stack_buffer : S → IntermediateBuffer
  pub block_bytes : S → ℕ → List ℕ
  pub create_event : S → Bool × S
  pub reset_event : S → Bool × S
  pub create_file : S → Bool × S
  pub load_library : S → Bool × S
  -- GetProcAddress of OpenVxDHandle, and a call of it
  pub has_open_vxd_handle : S → Bool
  pub open_vxd_handle : S → ℕ → ℕ × S
  -- GetModuleHandle of kernel32.dll, GetProcAddress of IsWow64Process, and what it reports
  pub has_kernel32 : S → Bool
  pub has_is_wow64_process : S → Bool
  pub is_wow64_process : S → Bool
  -- CVersionInfo
  pub is_windows_xp_or_greater : Bool
  pub is_windows_vista_or_greater : Bool
  pub is_windows_nt_platform : Bool

-- The state: the outside, the table that all objects share, m_BytesReturned of the object, and
-- what the process holds: blocks of malloc, event and file handles, references to libraries.
pub record World (S : Type 0) : Type 0 where
  pub sys : S
  pub table : HandleTable
  pub bytes_returned : ℕ
  pub blocks : ℕ
  pub open_handles : ℕ
  pub libraries : ℕ

-- `none` is behaviour that C leaves undefined: an access outside an array or a block.
abbrev pub Exec : Type 0 → Type 0 → Type 0
Exec S A = World S → Option (A × World S)

unfoldable pub pure : {S A : Type 0} → A → Exec S A
pure a w = some (a, w)

-- A computation that may fault and changes nothing.
unfoldable pub lift : {S A : Type 0} → Option A → Exec S A
lift o w = elim o [ none ↦ none | some a ↦ some (a, w) ]

module _ {S : Type 0} where
  -- m_Wow64Helper.From32to64Handle
  unfoldable pub translate : ℕ → Exec S ℕ
  unfolding lift
  translate h w = lift (from_32_to_64 w.table h) w

  unfoldable pub get_table : Exec S HandleTable
  get_table w = some (w.table, w)

  unfoldable pub put_table : HandleTable → Exec S Unit
  put_table t w = some (tt, record w { table = t })

  unfoldable pub free : Exec S Unit
  free w = some (tt, record w { blocks = w.blocks - 1 })

  unfoldable pub close_handle : Exec S Unit
  close_handle w = some (tt, record w { open_handles = w.open_handles - 1 })

  unfoldable pub free_library : Exec S Unit
  free_library w = some (tt, record w { libraries = w.libraries - 1 })

  -- A query of the outside.
  unfoldable pub ask : {A : Type 0} → (S → A) → Exec S A
  ask f w = some (f w.sys, w)

  -- A call that changes the outside.
  unfoldable pub call : {A : Type 0} → (S → A × S) → Exec S A
  call f w = let (a, s) = f w.sys in some (a, record w { sys = s })

module _ {S : Type 0} (env : Env S) where
  unfoldable pub malloc : ℕ → Exec S Bool
  malloc size w =
      let (ok, s) = env.malloc w.sys size in
      some (ok, record w { sys = s; blocks = if ok then w.blocks + 1 else w.blocks })

  unfoldable pub create_event : Exec S Bool
  create_event w =
      let (ok, s) = env.create_event w.sys in
      some
        (ok, record w { sys = s; open_handles = if ok then w.open_handles + 1 else w.open_handles })

  unfoldable pub create_file : Exec S Bool
  create_file w =
      let (ok, s) = env.create_file w.sys in
      some
        (ok, record w { sys = s; open_handles = if ok then w.open_handles + 1 else w.open_handles })

  unfoldable pub load_library : Exec S Bool
  load_library w =
      let (ok, s) = env.load_library w.sys in
      some (ok, record w { sys = s; libraries = if ok then w.libraries + 1 else w.libraries })

infixl 5 ◌>>=◌ ◌>>◌
-- Opening this opens the parts above.
unfoldable pub ◌>>=◌ : {S A B : Type 0} → Exec S A → (A → Exec S B) → Exec S B
unfolding pure lift translate get_table put_table free close_handle free_library ask call malloc
    create_event create_file load_library
◌>>=◌ m f w = elim (m w) [ none ↦ none | some (a, w') ↦ f a w' ]

abbrev pub ◌>>◌ : {S A B : Type 0} → Exec S A → Exec S B → Exec S B
m >> k = m >>= λ _. k

-- One step of a run: the first part gives `a`, and the rest goes on from there.
pub bind_run :
    {S A B : Type 0} (m : Exec S A) (f : A → Exec S B) {a : A} {w w' : World S}
    {r : Option (B × World S)}
    → m w ≡ some (a, w')
    → f a w' ≡ r
    → (m >>= f) w ≡ r
unfolding ◌>>=◌
bind_run m f e h = ap (λ o. elim o [ none ↦ none | some (a, w') ↦ f a w' ]) e ∙ h

-- A part that faults makes the whole fault.
pub bind_fault :
    {S A B : Type 0} (m : Exec S A) (f : A → Exec S B) {w : World S}
    → m w ≡ none
    → (m >>= f) w ≡ none
unfolding ◌>>=◌
bind_fault m f e = ap (λ o. elim o [ none ↦ none | some (a, w') ↦ f a w' ]) e

-- A test that is known.
module _ {S A : Type 0} {w : World S} {r : Option (A × World S)} (b : Bool) (m k : Exec S A) where
  pub if_true_run : b ≡ true → m w ≡ r → (if b then m else k) w ≡ r
  if_true_run e h = rw e h

  pub if_false_run : b ≡ false → k w ≡ r → (if b then m else k) w ≡ r
  if_false_run e h = rw e h

module _ {S : Type 0} where
  pub pure_run : {A : Type 0} (a : A) (w : World S) → pure a w ≡ some (a, w)
  unfolding pure
  pure_run a w = refl

  pub ask_run : {A : Type 0} (f : S → A) (w : World S) → ask f w ≡ some (f w.sys, w)
  unfolding ask
  ask_run f w = refl

  pub get_table_run : (w : World S) → get_table w ≡ some (w.table, w)
  unfolding get_table
  get_table_run w = refl

  pub put_table_run :
      (t : HandleTable) (w : World S) → put_table t w ≡ some (tt, record w { table = t })
  unfolding put_table
  put_table_run t w = refl

  pub free_run : (w : World S) → free w ≡ some (tt, record w { blocks = w.blocks - 1 })
  unfolding free
  free_run w = refl

  pub close_handle_run :
      (w : World S) → close_handle w ≡ some (tt, record w { open_handles = w.open_handles - 1 })
  unfolding close_handle
  close_handle_run w = refl

  pub free_library_run :
      (w : World S) → free_library w ≡ some (tt, record w { libraries = w.libraries - 1 })
  unfolding free_library
  free_library_run w = refl

  pub call_run :
      {A : Type 0} (f : S → A × S) {a : A} {s : S} (w : World S)
      → f w.sys ≡ (a, s)
      → call f w ≡ some (a, record w { sys = s })
  unfolding call
  call_run f w e = ap (λ p. some (p.0, record w { sys = p.1 })) e

  pub lift_run :
      {A : Type 0} {o : Option A} {a : A} (w : World S) → o ≡ some a → lift o w ≡ some (a, w)
  unfolding lift
  lift_run w e = ap (λ o. elim o [ none ↦ none | some a ↦ some (a, w) ]) e

  pub lift_fault : {A : Type 0} {o : Option A} (w : World S) → o ≡ none → lift o w ≡ none
  unfolding lift
  lift_fault w e = ap (λ o. elim o [ none ↦ none | some a ↦ some (a, w) ]) e

  pub translate_run :
      (h : ℕ) {x : ℕ} (w : World S) → from_32_to_64 w.table h ≡ some x → translate h w ≡ some (x, w)
  unfolding translate
  translate_run h w e = lift_run w e

  pub translate_fault :
      (h : ℕ) (w : World S) → from_32_to_64 w.table h ≡ none → translate h w ≡ none
  unfolding translate
  translate_fault h w e = lift_fault w e

module _ {S : Type 0} (env : Env S) where
  pub malloc_run :
      (size : ℕ) {ok : Bool} {s : S} (w : World S)
      → env.malloc w.sys size ≡ (ok, s)
      → malloc env size w
        ≡ some (ok, record w { sys = s; blocks = if ok then w.blocks + 1 else w.blocks })
  unfolding malloc
  malloc_run size w e =
      ap (λ p. some (p.0, record w { sys = p.1; blocks = if p.0 then w.blocks + 1 else w.blocks }))
        e

  pub create_event_run :
      {ok : Bool} {s : S} (w : World S)
      → env.create_event w.sys ≡ (ok, s)
      → create_event env w
        ≡ some (
          ok,
          record w { sys = s; open_handles = if ok then w.open_handles + 1 else w.open_handles },
        )
  unfolding create_event
  create_event_run w e =
      ap
        (λ p. some (
          p.0,
          record w { sys = p.1; open_handles = if p.0 then w.open_handles + 1 else w.open_handles },
        ))
        e

  pub create_file_run :
      {ok : Bool} {s : S} (w : World S)
      → env.create_file w.sys ≡ (ok, s)
      → create_file env w
        ≡ some (
          ok,
          record w { sys = s; open_handles = if ok then w.open_handles + 1 else w.open_handles },
        )
  unfolding create_file
  create_file_run w e =
      ap
        (λ p. some (
          p.0,
          record w { sys = p.1; open_handles = if p.0 then w.open_handles + 1 else w.open_handles },
        ))
        e

-- A run of a sequence that gives a result is a run of each part.
pub bind_inv :
    {S A B : Type 0} (m : Exec S A) (f : A → Exec S B) {b : B} {w w'' : World S}
    → (m >>= f) w ≡ some (b, w'')
    → (a : A) × (w' : World S) × (m w ≡ some (a, w')) × (f a w' ≡ some (b, w''))
unfolding ◌>>=◌
bind_inv {S} {A} {B} m f {b} {w} {w''} e = go (m w) refl e
  where
    go :
        (o : Option (A × World S))
        → m w ≡ o
        → (elim o [ none ↦ none | some (a, w') ↦ f a w' ]) ≡ some (b, w'')
        → (a : A) × (w' : World S) × (m w ≡ some (a, w')) × (f a w' ≡ some (b, w''))
    go none p q = cc
    go (some (a, w')) p q = (a, w', p, q)
