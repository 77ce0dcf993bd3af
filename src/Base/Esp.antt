-- ===== src/Base/Esp.antt =====
-- What a routine that returns esp_err_t can do: ESP_OK with its results, an error code, or a touch
-- of memory that the caller did not hand over.
use Prim.Native.Nat.{ℕ, ◌+◌}
use mathlib.Core.Option.{none, some}
use mathlib.Core.List.{List}
use cursor_embed_cus_mqtt_su.Base.Tests.{leb, if◌then◌else◌}
use cursor_embed_cus_mqtt_su.Base.Lists.{length, get_elem?, take, drop}

pub data EspError : Type 0 where
  fail invalid_arg no_mem invalid_state invalid_size not_found invalid_version invalid_crc :
      EspError

pub data Returned {ℓ} (A : Type ℓ) : Type ℓ where
  ok : A → Returned A
  err : EspError → Returned A
  fault : Returned A

infixl 5 ◌>>=◌
abbrev pub ◌>>=◌ {ℓ κ} : {A : Type ℓ} {B : Type κ} → Returned A → (A → Returned B) → Returned B
ok a >>= f = f a
err e >>= f = err e
fault >>= f = fault

-- `buf[i]`.
abbrev pub read : List ℕ → ℕ → Returned ℕ
read buf i = elim (get_elem? buf i) [ none ↦ fault | some b ↦ ok b ]

-- The `n` bytes at `buf + i`, as `memcpy` reads them.
abbrev pub read_block : List ℕ → ℕ → ℕ → Returned (List ℕ)
read_block buf i n = if leb (i + n) (length buf) then ok (take n (drop i buf)) else fault
