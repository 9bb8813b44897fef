-- ===== src/Env/Contacts.antt =====
-- compare_emails, compare_phone_numbers and compare_vendor_address of src/amvp_operating_env.c, for
-- a list and an array that is there. A list that is NULL is empty; `*match` is passed in and
-- returned.
use Prim.Native.Nat.{Ordering}
use libamvp.Common.{
  ℕ, zero, suc, ◌+◌, Bool, true, false, ◌&&◌, Option, none, some, List, [], ◌∷◌, ◌==◌,
  if◌then◌else◌, length, codes,
}
use libamvp.Result.{Result, success, invalid_arg, json_err}
use libamvp.SafeC.Errno.{CStr}
use libamvp.SafeC.Compare.{strcmp_s}
use libamvp.Util.StringList.{is_equal}
use libamvp.Protocol.Json.{Json}
use libamvp.Env.Types.{Field, Address, Phone, oe_str_max}
use libamvp.Env.Pages.{equal_fields, copied_url}

-- A string that the array lacks is passed over.
abbrev pub same_string : Field → Option CStr → Bool
same_string s none = true
same_string s (some t) = is_equal (strcmp_s s oe_str_max (some t) Ordering.eq).1

abbrev pub tail_of : List CStr → List CStr
tail_of [] = []
tail_of (s ∷ ss) = ss

-- The loop that counts the list sets `tmp_ptr` to the second node in each iteration.
unfoldable pub count_emails : ℕ → List CStr → List CStr → ℕ → Option ℕ
count_emails zero email_list tmp len = none
count_emails (suc fuel) email_list [] len = some len
count_emails (suc fuel) email_list (s ∷ tmp) len =
    count_emails fuel email_list (tail_of email_list) (len + 1)

module _ {Value Array Object : Type 0} (json : Json Value Array Object) where
  open json use {get_count, get_object, get_string, get_string_at}

  unfoldable pub emails_loop : List CStr → ℕ → Array → Bool
  emails_loop [] i arr = true
  emails_loop (s ∷ ss) i arr =
      let rest = emails_loop ss (i + 1) arr in
      if same_string (some s) (get_string_at arr i) then rest else false

  unfoldable pub counted_emails : List CStr → Array → Option ℕ → Option (Result × Bool)
  unfolding emails_loop
  counted_emails emails arr none = none
  counted_emails emails arr (some n) =
      some (success, if n == get_count arr then emails_loop emails 0 arr else false)

  -- `none` is a count that has not ended on its fuel.
  unfoldable pub compare_emails : ℕ → List CStr → Array → Bool → Option (Result × Bool)
  unfolding counted_emails count_emails
  compare_emails fuel [] arr match = some (invalid_arg, match)
  compare_emails fuel (s ∷ ss) arr match =
      counted_emails (s ∷ ss) arr (count_emails fuel (s ∷ ss) (s ∷ ss) 0)

  unfoldable pub same_phone : Phone → Object → Bool
  same_phone phone obj =
      same_string phone.number (get_string obj (codes "number"))
      && same_string phone.type (get_string obj (codes "type"))

  unfoldable pub phone_entry : Phone → Option Object → Bool → Result × Bool → Result × Bool
  unfolding same_phone
  phone_entry phone none match rest = (json_err, match)
  phone_entry phone (some obj) match rest = if same_phone phone obj then rest else (success, false)

  unfoldable pub phones_loop : List Phone → ℕ → Array → Bool → Result × Bool
  unfolding phone_entry
  phones_loop [] i arr match = (success, true)
  phones_loop (p ∷ ps) i arr match =
      let rest = phones_loop ps (i + 1) arr match in phone_entry p (get_object arr i) match rest

  unfoldable pub compare_phone_numbers : List Phone → Array → Bool → Result × Bool
  unfolding phones_loop
  compare_phone_numbers [] arr match =
      if get_count arr == 0 then (success, true) else (invalid_arg, match)
  compare_phone_numbers (p ∷ ps) arr match =
      if length (p ∷ ps) == get_count arr
      then phones_loop (p ∷ ps) 0 arr match
      else (success, false)

  unfoldable pub same_address : Address → Object → Bool
  same_address address obj =
      equal_fields address.street_1 (get_string obj (codes "street1"))
      && equal_fields address.street_2 (get_string obj (codes "street2"))
      && equal_fields address.street_3 (get_string obj (codes "street3"))
      && equal_fields address.locality (get_string obj (codes "locality"))
      && equal_fields address.region (get_string obj (codes "region"))
      && equal_fields address.country (get_string obj (codes "country"))
      && equal_fields address.postal_code (get_string obj (codes "postalCode"))

  -- The URL in an object of 2084 bytes, cleared before the copy.
  unfoldable pub address_url :
      Address → Option CStr → Result × Bool × Address → Result × Bool × Address
  address_url address none rest = rest
  address_url address (some url) rest = (success, true, record address { url = copied_url url })

  unfoldable pub address_entry :
      Address → Option Object → Result × Bool × Address → Result × Bool × Address
  unfolding same_address address_url
  address_entry address none rest = (json_err, false, address)
  address_entry address (some obj) rest =
      if same_address address obj
      then address_url address (get_string obj (codes "url")) rest
      else rest

  -- The candidates from index `i` on; the second argument is how many are left.
  unfoldable pub addresses_loop : Address → ℕ → ℕ → Array → Result × Bool × Address
  unfolding address_entry
  addresses_loop address zero i arr = (success, false, address)
  addresses_loop address (suc n) i arr =
      let rest = addresses_loop address n (i + 1) arr in
      address_entry address (get_object arr i) rest

  unfoldable pub compare_vendor_address : Address → Array → Result × Bool × Address
  unfolding addresses_loop
  compare_vendor_address address arr = addresses_loop address (get_count arr) 0 arr
