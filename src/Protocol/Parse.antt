-- ===== src/Protocol/Parse.antt =====
-- amvp_parse_protocol_error of src/amvp_error.c. The outer Option is `none` where a NULL pointer
-- is dereferenced, the inner one where the function returns NULL. Allocations succeed.
use libamvp.Common.{
  ℕ, zero, suc, ◌+◌, Bool, true, false, ◌||◌, Option, none, some, List, [], ◌∷◌, ltb, leb, ◌==◌,
  if◌then◌else◌, ℤ, pos, negsuc, codes,
}
use libamvp.SafeC.Errno.{CStr}
use libamvp.SafeC.Compare.{strnlen_s}
use libamvp.Protocol.Json.{Json}
use libamvp.Protocol.Errors.{
  Category, general, auth, malformed_payload, invalid_request, on_server, ErrorEntry, ProtocolError,
  root_array,
}

abbrev pub err_max_object_count : ℕ
err_max_object_count = 100

abbrev pub err_max_desc_strings : ℕ
err_max_desc_strings = 20

abbrev pub err_desc_str_max : ℕ
err_desc_str_max = 256

-- A category number in its range.
unfoldable pub category_of : ℤ → Option Category
category_of (pos n) =
    if n == 0
    then some general
    else (if n == 1
        then some auth
        else (if n == 2
            then some malformed_payload
            else (if n == 3
                then some invalid_request
                else (if n == 4 then some on_server else none))))
category_of (negsuc n) = none

-- One iteration of the loop over the messages: `none` is strdup of NULL, `some false` a `goto err`.
-- The length is measured up to 1 byte (`AMVP_ERR_DESC_STR_MAX + 1 > AMVP_ERR_DESC_STR_MAX`), and
-- the test of the copy is for one that is there: both branches fail.
unfoldable pub message_step : Option CStr → Option Bool
message_step none = none
message_step (some s) = if strnlen_s (some s) 1 == 0 then some false else some false

module _ {Value Array Object : Type 0} (json : Json Value Array Object) where
  -- With fewer messages than the maximum `count2` keeps its value; every message is read at the
  -- index `count2`.
  unfoldable pub messages : Array → ℕ → Option Bool
  unfolding message_step
  messages arr2 count2 =
      let n =
        if ltb (json.get_count arr2) err_max_desc_strings then count2 else err_max_desc_strings in
      if n == 0 then some true else message_step (json.get_string_at arr2 n)

  -- The errors linked so far; `iter` is NULL, so a second one is stored through NULL.
  abbrev pub Linked : Type 0
  Linked = Option (Option (List ErrorEntry))

  unfoldable pub link : List ErrorEntry → ErrorEntry → Linked
  link [] e = some (some (e ∷ []))
  link (x ∷ errors) e = none

  unfoldable pub after_messages : Option Bool → List ErrorEntry → ErrorEntry → Linked
  unfolding link
  after_messages none errors e = none
  after_messages (some false) errors e = some none
  after_messages (some true) errors e = link errors e

  unfoldable pub with_messages : Option Array → List ErrorEntry → ErrorEntry → Linked
  unfolding after_messages messages
  with_messages none errors e = some none
  with_messages (some arr2) errors e = after_messages (messages arr2 0) errors e

  unfoldable pub entry : Option Object → List ErrorEntry → Linked
  unfolding with_messages
  entry none errors = some none
  entry (some obj) errors =
      if json.has_number obj (codes "code")
      then with_messages (json.get_array_of obj (codes "messages")) errors
          record { code = json.get_number obj (codes "code"); desc = [] }
      else some none

  unfoldable pub next_entries : Linked → (List ErrorEntry → Linked) → Linked
  next_entries none next = none
  next_entries (some none) next = some none
  next_entries (some (some errors)) next = next errors

  unfoldable pub entries_loop : ℕ → Array → ℕ → List ErrorEntry → Linked
  unfolding next_entries entry
  entries_loop zero arr i errors = some (some errors)
  entries_loop (suc n) arr i errors =
      next_entries (entry (json.get_object arr i) errors) (entries_loop n arr (i + 1))

  unfoldable pub finish_parse : Category → CStr → Linked → Option (Option ProtocolError)
  finish_parse cat desc none = none
  finish_parse cat desc (some none) = some none
  finish_parse cat desc (some (some errors)) =
      some (some record { category = cat; category_desc = desc; errors = errors })

  unfoldable pub parse_errors : Category → CStr → Option Array → Option (Option ProtocolError)
  unfolding finish_parse entries_loop
  parse_errors cat desc none = some none
  parse_errors cat desc (some arr) =
      let count = json.get_count arr in
      if leb count 0 || leb err_max_object_count count
      then some none
      else finish_parse cat desc (entries_loop count arr 0 [])

  unfoldable pub parse_desc : Category → Object → Option CStr → Option (Option ProtocolError)
  unfolding parse_errors
  parse_desc cat obj none = some none
  parse_desc cat obj (some desc) =
      if ltb err_desc_str_max (strnlen_s (some desc) (err_desc_str_max + 1))
      then some none
      else parse_errors cat desc (json.get_array_of obj (codes "errors"))

  unfoldable pub parse_category : Option Category → Object → Option (Option ProtocolError)
  unfolding parse_desc
  parse_category none obj = some none
  parse_category (some cat) obj = parse_desc cat obj (json.get_string obj (codes "description"))

  unfoldable pub parse_object : Option Object → Option (Option ProtocolError)
  unfolding parse_category category_of
  parse_object none = some none
  parse_object (some obj) =
      if json.has_number obj (codes "category")
      then parse_category (category_of (json.get_number obj (codes "category"))) obj
      else some none

  unfoldable pub second_object : Option Array → Option Object
  second_object none = none
  second_object (some arr) = json.get_object arr 1

  unfoldable pub parse_protocol_error : Option CStr → Option (Option ProtocolError)
  unfolding parse_object second_object
  parse_protocol_error none = some none
  parse_protocol_error (some buf) =
      parse_object (second_object (root_array json (json.parse_string (some buf))))
