-- ===== src/Base/Results.antt =====
-- What a C routine that returns -1, or an error code, on bad input can do: give a result, refuse,
-- or touch memory that the caller did not hand over. Reads of a buffer go through `read`.
use Prim.Native.Nat.{ℕ, ◌+◌, ◌<◌}
use mathlib.Core.Path.{◌≡◌}
use mathlib.Core.Option.{Option, none, some}
use mathlib.Core.List.{List}
use cursor_embed_cus_mqtt_su.Base.Tests.{leb, if◌then◌else◌}
use cursor_embed_cus_mqtt_su.Base.Lists.{length, get_elem?, take, drop, get_elem?-lt}

pub data Outcome {ℓ} (A : Type ℓ) : Type ℓ where
  ok : A → Outcome A
  rejected : Outcome A
  fault : Outcome A

infixl 5 ◌>>=◌
abbrev pub ◌>>=◌ {ℓ κ} : {A : Type ℓ} {B : Type κ} → Outcome A → (A → Outcome B) → Outcome B
ok a >>= f = f a
rejected >>= f = rejected
fault >>= f = fault

abbrev pub or_fault {ℓ} : {A : Type ℓ} → Option A → Outcome A
or_fault none = fault
or_fault (some a) = ok a

-- `buf[i]`.
abbrev pub read : List ℕ → ℕ → Outcome ℕ
read buf i = or_fault (get_elem? buf i)

-- The `n` bytes at `buf + i`, as `memcpy` reads them.
abbrev pub read_block : List ℕ → ℕ → ℕ → Outcome (List ℕ)
read_block buf i n = if leb (i + n) (length buf) then ok (take n (drop i buf)) else fault

pub read-lt : (buf : List ℕ) (i : ℕ) → i < length buf → (b : ℕ) × (read buf i ≡ ok b)
read-lt buf i h = let (b, e) = get_elem?-lt buf i h in (b, rw e)
