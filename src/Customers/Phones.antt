-- ===== src/Customers/Phones.antt =====
-- What a phone stands for.
use Prim.Native.Char.{Char}
use sieshka.Prelude.{
  ℕ, ◌≡◌, refl, ap, Bool, true, String, none, some, List, [], ◌∷◌, ◌++◌, arith, nat_eq, eq_iff,
  string_eq, Option-cases, inl, inr,
}
use sieshka.Prelude.Table.{select}
use sieshka.Customers.{
  Customer, Checked, value, normalize_phone, first_row, has_phone, find_by_phone, new_customer,
  find_or_create, find_or_create_by_phone,
}

module _ (is_digit : Char → Bool) where
  same_phone : Customer → Customer → Bool
  same_phone a b = has_phone is_digit a.phone b

  first_none : (rows : List Customer) → first_row is_digit rows ≡ none → rows ≡ []
  first_none [] h = refl
  first_none (c ∷ rows) h = absurd (ground arith)

  select_end :
      (p : Customer → Bool) (rows : List Customer) (c : Customer)
      → select p rows ≡ []
      → p c ≡ true
      → select p (rows ++ c ∷ []) ≡ c ∷ []
  unfolding select
  select_end p [] c h k = ground arith
  select_end p (r ∷ rows) c h k = ground (arith, select_end p rows c)

  found_again :
      (new_id : List Customer → ℕ) (name canonical : String) (rows : List Customer)
      → find_by_phone is_digit canonical (find_or_create is_digit new_id name canonical rows).1
        ≡ some (find_or_create is_digit new_id name canonical rows).0
  unfolding find_or_create find_by_phone
  found_again new_id name canonical rows =
      elim (Option-cases (find_by_phone is_digit canonical rows)) [
        | inr (c, there) ↦ rw (find_or_create, there, there) refl
        | inl absent ↦
            rw (find_or_create, absent)
              (ap (first_row is_digit) (
                select_end (has_phone is_digit canonical) rows
                  (new_customer is_digit (new_id rows) name canonical)
                  (first_none (select (has_phone is_digit canonical) rows) absent) ground
                  (arith, eq_iff canonical canonical)))
      ]

  reuse :
      (new_id : List Customer → ℕ) (name canonical : String) (c : Customer) (rows : List Customer)
      → find_by_phone is_digit canonical rows ≡ some c
      → find_or_create is_digit new_id name canonical rows ≡ (c, rows)
  unfolding find_or_create
  reuse new_id name canonical c rows h = rw (find_or_create, h) refl

  again :
      (new_id : List Customer → ℕ) (name name_2 canonical : String) (rows : List Customer)
      → find_or_create is_digit new_id name_2 canonical
          (find_or_create is_digit new_id name canonical rows).1
        ≡ find_or_create is_digit new_id name canonical rows
  unfolding find_or_create
  again new_id name name_2 canonical rows =
      reuse new_id name_2 canonical _ _ (found_again new_id name canonical rows)

  abbrev pub answered : Customer × List Customer → Checked Customer × List Customer
  answered (c, rows) = (value c, rows)

  pub by_phone :
      (new_id : List Customer → ℕ) (name phone canonical : String) (rows : List Customer)
      → normalize_phone is_digit phone ≡ value canonical
      → find_or_create_by_phone is_digit new_id name phone rows
        ≡ answered (find_or_create is_digit new_id name canonical rows)
  unfolding find_or_create_by_phone
  by_phone new_id name phone canonical rows h = rw (find_or_create_by_phone, h) refl

  -- With the phone of a call that found or made a customer, or with any other spelling of it, every later call
  -- returns the same customer, whatever name it gives, and leaves the table as it is.
  pub find_or_create_by_phone_once :
      (new_id : List Customer → ℕ) (name phone name_2 phone_2 canonical : String)
      (rows : List Customer)
      → normalize_phone is_digit phone ≡ value canonical
      → normalize_phone is_digit phone_2 ≡ value canonical
      → (let first = find_or_create_by_phone is_digit new_id name phone rows in
          find_or_create_by_phone is_digit new_id name_2 phone_2 first.1 ≡ first)
  find_or_create_by_phone_once new_id name phone name_2 phone_2 canonical rows h k =
      rw
        (
          by_phone new_id name phone canonical rows h,
          by_phone new_id name_2 phone_2 canonical
              (find_or_create is_digit new_id name canonical rows).1 k,
        )
        (ap answered (again new_id name name_2 canonical rows))
