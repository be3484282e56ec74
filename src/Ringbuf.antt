-- ===== src/Ringbuf.antt =====
-- internal/ringbuf/buffer.go: the bounded buffer between the scrapers and the status sync. The lock
-- makes each method one step. `none` is a panic of the runtime.
pub mod Inv
pub mod Refine
use network_enforcer.Common.{
  ℕ, zero, suc, ◌+◌, ◌-◌, ◌%◌, ◌^◌, ◌<◌, min, Bool, true, false, Option, none, some, List, [], ◌∷◌,
  leb, ltb, if◌then◌else◌, length, get_elem?, set, replicate, nat_beq, ◌&&◌, not,
}
use network_enforcer.Common.Int.{ℤ, pos, negsuc}

abbrev pub max_buffer_entries : ℕ
max_buffer_entries = 10000

-- `pos` is an `int` as its 64 bits: 2^63 and above are the negative numbers.
pub record Buffer {ℓ} (T : Type ℓ) : Type ℓ where
  pub buf : List T
  pub pos : ℕ
  pub capacity : ℕ

abbrev pub is_negative : ℕ → Bool
is_negative n = leb (2 ^ 63) n

infixl 5 ◌>>=◌
abbrev pub ◌>>=◌ {ℓ κ} : {A : Type ℓ} {B : Type κ} → Option A → (A → Option B) → Option B
none >>= f = none
some a >>= f = f a

-- the `size` of a new buffer after its check
abbrev pub size_or_default : ℤ → ℕ
size_or_default (pos zero) = max_buffer_entries
size_or_default (pos (suc n)) = suc n
size_or_default (negsuc n) = max_buffer_entries

module _ {ℓ} {T : Type ℓ} where
  -- `zero_value` is what `make([]T, size)` fills the slots with
  unfoldable pub new_with_size : T → ℤ → Buffer T
  new_with_size zero_value size =
      let capacity = size_or_default size in
      record { buf = replicate capacity zero_value; pos = 0; capacity = capacity }

  -- b.pos % b.capacity; a negative remainder is no index
  abbrev pub write_index : Buffer T → Option ℕ
  write_index b =
      if is_negative b.pos
      then if nat_beq ((2 ^ 64 - b.pos) % b.capacity) 0 then some 0 else none
      else some (b.pos % b.capacity)

  abbrev pub write_at : List T → ℕ → T → Option (List T)
  write_at xs i x = if ltb i (length xs) then some (set xs i x) else none

  unfoldable pub record_item : Buffer T → T → Option (Bool × Buffer T)
  record_item b rec = do
    i ← write_index b
    slots ← write_at b.buf i rec
    let dropped = not (is_negative b.pos) && leb b.capacity b.pos
    some (dropped, record b { buf = slots; pos = (b.pos + 1) % 2 ^ 64 })

  -- the rounds `i`, `i + 1`, … of the loop of Drain
  unfoldable pub drain_from : Buffer T → ℕ → ℕ → Option (List T)
  drain_from b i zero = some []
  drain_from b i (suc rounds) = do
    x ← get_elem? b.buf ((b.pos - 1 - i) % b.capacity)
    rest ← drain_from b (i + 1) rounds
    some (x ∷ rest)

  unfoldable pub drain : Buffer T → Option (List T × Buffer T)
  unfolding drain_from
  drain b =
      if is_negative b.pos
      then none
      else if nat_beq (min b.pos b.capacity) 0
      then some ([], b)
      else do records ← drain_from b 0 (min b.pos b.capacity); some (records, record b { pos = 0 })

-- What a client asks of a buffer, and what it sees.
pub data Op {ℓ} (T : Type ℓ) : Type ℓ where
  add : T → Op T
  take_all : Op T

pub data Reply {ℓ} (T : Type ℓ) : Type ℓ where
  added : Bool → Reply T
  taken : List T → Reply T

-- calls in the order in which they got the lock
unfoldable pub run {ℓ} : {T : Type ℓ} → Buffer T → List (Op T) → Option (List (Reply T))
run b [] = some []
run b (add x ∷ ops) = do
  (dropped, b') ← record_item b x
  rest ← run b' ops
  some (added dropped ∷ rest)
run b (take_all ∷ ops) = do (records, b') ← drain b; rest ← run b' ops; some (taken records ∷ rest)
