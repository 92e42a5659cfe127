-- ===== src/Ra/Provider/Run.antt =====
-- The `do { … break; … } while (0)` of the handlers: a monad over the state that stops with `ret`.
use sgx_nfv.Prelude.{
  ℕ, ◌+◌, ◌≡◌, refl, Bool, true, false, Option, none, some, ℤ, ltb, if◌then◌else◌, length, take,
  drop,
}
use sgx_nfv.Ra.Crypto.{Bytes, Status, success, failed}
use sgx_nfv.Ra.Provider.{Sp}

-- The globals with two locals of the handler: whether `ecc_state` and the response are not NULL.
pub record Frame : Type 0 where
  pub sp : Sp
  pub ecc_state : Bool
  pub full : Bool

-- `go` at the end of the block, `stop` at a `break`, `crash` at an access through NULL or outside an
-- object.
pub data Flow (A : Type 0) : Type 0 where
  go : A → Frame → Flow A
  stop : ℤ → Frame → Flow A
  crash : Flow A

abbrev pub Step : Type 0 → Type 0
Step A = Frame → Flow A

abbrev pub then_run : {A B : Type 0} → Flow A → (A → Step B) → Flow B
then_run (go a f) k = k a f
then_run (stop ret f) k = stop ret f
then_run crash k = crash

infixl 5 ◌>>=◌ ◌>>◌
abbrev pub ◌>>=◌ : {A B : Type 0} → Step A → (A → Step B) → Step B
◌>>=◌ m k f = then_run (m f) k

abbrev pub ◌>>◌ : {B : Type 0} → Step (Unit {0}) → Step B → Step B
m >> k = m >>= λ _. k

module _ {A : Type 0} where
  abbrev pub pure : A → Step A
  pure a f = go a f

  abbrev pub gets : (Sp → A) → Step A
  gets k f = go (k f.sp) f

  -- `if (SAMPLE_SUCCESS != sample_ret) { ret = …; break; }`
  abbrev pub call : Status A → ℤ → Step A
  call (success a) ret f = go a f
  call (failed _) ret f = stop ret f

  -- a result of the file's own functions, or a `memcpy_s` that is refused
  abbrev pub some_or : Option A → ℤ → Step A
  some_or (some a) ret f = go a f
  some_or none ret f = stop ret f

  -- a pointer that is followed
  abbrev pub deref : Option A → Step A
  deref (some a) f = go a f
  deref none f = crash

abbrev pub check : Bool → ℤ → Step (Unit {0})
check true ret f = go tt f
check false ret f = stop ret f

abbrev pub modify : (Sp → Sp) → Step (Unit {0})
modify k f = go tt (record f { sp = k f.sp })

-- `n` bytes from `offset` on; the object may be shorter.
abbrev pub bytes_at : Bytes → ℕ → ℕ → Step Bytes
bytes_at b offset n f = if ltb (length b) (offset + n) then crash else go (take n (drop offset b)) f

-- A successful bind has a successful first part.
pub >>=-eq-go :
    {A B : Type 0} (r : Flow A) (k : A → Step B) {b : B} {f' : Frame}
    → then_run r k ≡ go b f'
    → (a : A) × (g : Frame) × (r ≡ go a g) × (k a g ≡ go b f')
>>=-eq-go (go a g) k h = (a, g, refl, h)
>>=-eq-go (stop ret g) k h = cc
>>=-eq-go crash k h = cc
