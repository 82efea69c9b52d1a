-- ===== src/Customers.antt =====
-- app/services/customer_service.py: the canonical form of a phone, and the customer of a phone.
pub mod Phones
use Prim.Native.Char.{Char, code}
use Prim.Native.String
use sieshka.Prelude.{
  ℕ, Bool, true, false, ◌&&◌, ◌||◌, String, Option, none, some, List, [], ◌∷◌, ◌++◌, nat_eq,
  string_eq, if◌then◌else◌, ltb, leb,
}
use sieshka.Prelude.{◌==◌}
use sieshka.Prelude.Table.{select}

-- A row of `customers`, without the time of its creation.
pub record Customer : Type 0 where
  pub id : ℕ
  pub name : String
  pub phone : String

-- The two messages of a PhoneNormalizationError.
pub data PhoneError : Type 0 where
  not_russian not_eleven_digits : PhoneError

pub data Checked (A : Type 0) : Type 0 where
  value : A → Checked A
  error : PhoneError → Checked A

-- `^[78]` and `^[0-69]`.
abbrev pub is_seven_or_eight : Char → Bool
is_seven_or_eight c = (code c == b'7') || (code c == b'8')

abbrev pub is_other_digit : Char → Bool
is_other_digit c = (leb b'0' (code c) && leb (code c) b'6') || (code c == b'9')

-- `"+7" + digits[1:]`.
abbrev pub plus_seven : String → String
plus_seven rest = String.◌∷◌ "+" (String.◌∷◌ "7" rest)

-- `is_digit` is `\d` of Python's `re`, which is true of every decimal digit of Unicode.
module _ (is_digit : Char → Bool) where
  -- `re.sub(r"\D", "", phone)`.
  unfoldable pub digits : String → String
  digits String.[] = String.[]
  digits (String.◌∷◌ c s) = let rest = digits s in if is_digit c then String.◌∷◌ c rest else rest

  abbrev pub checked : String → Checked String
  checked String.[] = error not_eleven_digits
  checked (String.◌∷◌ c rest) =
      if is_seven_or_eight c && (String.count rest == 10)
      then value (plus_seven rest)
      else if is_other_digit c && (String.count rest == 10)
      then error not_russian
      else error not_eleven_digits

  unfoldable pub normalize_phone : String → Checked String
  normalize_phone phone = checked (digits phone)

  -- `fetchone`, of the rows with a phone.
  abbrev pub first_row : List Customer → Option Customer
  first_row [] = none
  first_row (c ∷ rows) = some c

  abbrev pub has_phone : String → Customer → Bool
  has_phone phone c = c.phone == phone

  unfoldable pub find_by_phone : String → List Customer → Option Customer
  find_by_phone phone customers = first_row (select (has_phone phone) customers)

  -- `new_id` is the key that the database chooses.
  abbrev pub new_customer : ℕ → String → String → Customer
  new_customer id name phone = record { id = id; name = name; phone = phone }

  unfoldable pub find_or_create :
      (List Customer → ℕ) → String → String → List Customer → Customer × List Customer
  find_or_create new_id name canonical customers = elim (find_by_phone canonical customers) [
    | some existing ↦ (existing, customers)
    | none ↦ let c = new_customer (new_id customers) name canonical in (c, customers ++ c ∷ [])
  ]

  unfoldable pub find_or_create_by_phone :
      (List Customer → ℕ) → String → String → List Customer → Checked Customer × List Customer
  find_or_create_by_phone new_id name phone customers = elim (normalize_phone phone) [
    | error e ↦ (error e, customers)
    | value canonical ↦
        let (c, after) = find_or_create new_id name canonical customers in (value c, after)
  ]
