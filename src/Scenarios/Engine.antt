-- ===== src/Scenarios/Engine.antt =====
-- A small JSON writer and digest, which the scenarios take for the engine's.
use Prim.Native.Nat.{◌/◌, ◌%◌}
use Prim.Native.String.{◌++◌ as join}
use threadloop.Base.{
  ℕ, zero, suc, ◌+◌, ◌*◌, ◌^◌, String, Option, none, some, true, false, List, [], ◌∷◌,
  if◌then◌else◌, ◌==◌, codes, string_eq, nat_eq,
}
use threadloop.Json.{
  Value, null, boolean, number, negative, text, array, object, Items, nil, cons, Fields, end, field,
}
use threadloop.Store.{Engine}

unfoldable pub digit : ℕ → String
digit zero = "0"
digit (suc zero) = "1"
digit (suc (suc zero)) = "2"
digit (suc (suc (suc zero))) = "3"
digit (suc (suc (suc (suc zero)))) = "4"
digit (suc (suc (suc (suc (suc zero))))) = "5"
digit (suc (suc (suc (suc (suc (suc zero)))))) = "6"
digit (suc (suc (suc (suc (suc (suc (suc zero))))))) = "7"
digit _ = "8"

-- The last digits of a number, to a base of at most nine.
unfoldable pub digits : ℕ → ℕ → ℕ → String
unfolding digit
digits base zero n = ""
digits base (suc k) n = join (digits base k (n / base)) (digit (n % base))

mutual
  unfolding digits

  write : Value → String
  write null = "null"
  write (boolean true) = "true"
  write (boolean false) = "false"
  write (number n) = digits 8 6 n
  write (negative n) = join "-" (digits 8 6 n)
  write (text s) = join "'" (join s "'")
  write (array items) = join "[" (join (write_items items) "]")
  write (object fields) = join "{" (join (write_fields fields) "}")

  write_items : Items → String
  write_items nil = ""
  write_items (cons v rest) = join (write v) (join "," (write_items rest))

  write_fields : Fields → String
  write_fields end = ""
  write_fields (field k v rest) = join k (join ":" (join (write v) (join "," (write_fields rest))))

pub fold : ℕ → List ℕ → ℕ
fold h [] = h
fold h (c ∷ cs) = fold ((h * 31 + c) % 2 ^ 191) cs

-- 64 digits that depend on the whole text.
unfoldable pub checksum : String → String
unfolding fold digits
checksum s = digits 8 64 (fold 7 (codes s))

-- The requests of the scenarios are empty objects.
read : String → Option Value
read s = if s == "{}" then some (object end) else none

unfoldable pub writer : Value → String
unfolding write
writer v = write v

unfoldable pub engine : Engine
unfolding writer checksum read
engine = record { stringify = writer; parse = read; digest = checksum }

abbrev pub sample : String
unfolding checksum
sample = checksum "abc"
