-- ===== src/Protocol/Parsing.antt =====
-- What amvp_parse_protocol_error makes of a well-formed message.
use libamvp.Common.{
  ℕ, suc, ◌≤◌, ◌<◌, ◌≡◌, refl, true, false, none, some, List, [], ◌∷◌, arith, ℤ, codes, length, ltb,
  leb, ◌-◌,
}
use libamvp.SafeC.Errno.{CStr}
use libamvp.SafeC.Compare.{strnlen, strnlen_s}
use libamvp.SafeC.Copying.{strnlen-eq-min}
use libamvp.Protocol.Json.{Json}
use libamvp.Protocol.Errors.{Category, ErrorEntry, root_array}
use libamvp.Protocol.Parse.{category_of, messages, entry, parse_errors, parse_protocol_error, link}

-- The text is a message of the protocol: the second object has a category of the protocol, a
-- description of at most 256 bytes and an array of errors.
pub record IsMessage {Value Array Object : Type 0} (json : Json Value Array Object) (buf : CStr)
    (cat : Category) (desc : CStr) (arr : Array) : Type 0 where
  pub root : Value
  pub pair : Array
  pub obj : Object
  pub parsed : json.parse_string (some buf) ≡ some root
  pub is_array : json.get_array root ≡ some pair
  pub second : json.get_object pair 1 ≡ some obj
  pub numbered : json.has_number obj (codes "category") ≡ true
  pub categorised : category_of (json.get_number obj (codes "category")) ≡ some cat
  pub described : json.get_string obj (codes "description") ≡ some desc
  pub short : length desc ≤ 256
  pub listed : json.get_array_of obj (codes "errors") ≡ some arr

-- The entry has a numeric code and an array of fewer than 20 messages.
pub record IsEntry {Value Array Object : Type 0} (json : Json Value Array Object) (arr : Array)
    (i : ℕ) (code : ℤ) : Type 0 where
  pub obj : Object
  pub texts : Array
  pub present : json.get_object arr i ≡ some obj
  pub numbered : json.has_number obj (codes "code") ≡ true
  pub coded : json.get_number obj (codes "code") ≡ code
  pub listed : json.get_array_of obj (codes "messages") ≡ some texts
  pub few : json.get_count texts < 20

module _ {Value Array Object : Type 0} (json : Json Value Array Object) where
  parse_reaches_errors :
      (buf : CStr) (cat : Category) (desc : CStr) (arr : Array)
      → IsMessage json buf cat desc arr
      → parse_protocol_error json (some buf) ≡ parse_errors json cat desc (some arr)
  unfolding parse_protocol_error root_array strnlen_s
  parse_reaches_errors buf cat desc arr m =
      let fits : strnlen desc 257 ≡ length desc = omega (arith, strnlen-eq-min desc 257, m.short) in
      let in_limit : ltb 256 (length desc) ≡ false = ground (arith, m.short) in
      rw
        (
          m.parsed, m.is_array, m.second, m.numbered, m.categorised, m.described, m.listed, fits,
          in_limit,
        )
        refl

  few_messages : (arr : Array) → json.get_count arr < 20 → messages json arr 0 ≡ some true
  unfolding messages
  few_messages arr h = ground arith

  entry_links :
      (arr : Array) (i : ℕ) (code : ℤ) (errors : List ErrorEntry)
      → IsEntry json arr i code
      → entry json (json.get_object arr i) errors
        ≡ link json errors record { code = code; desc = [] }
  unfolding entry
  entry_links arr i code errors e =
      rw (e.present, e.numbered, e.coded, e.listed, few_messages e.texts e.few) refl

  -- A message with one error is parsed: the result has its code and none of its messages.
  pub parse_protocol_error_single :
      (buf : CStr) (cat : Category) (desc : CStr) (arr : Array) (code : ℤ)
      → IsMessage json buf cat desc arr
      → json.get_count arr ≡ 1
      → IsEntry json arr 0 code
      → parse_protocol_error json (some buf)
        ≡ some (
            some record {
              category = cat;
              category_desc = desc;
              errors = record { code = code; desc = [] } ∷ [];
            })
  unfolding parse_errors link
  parse_protocol_error_single buf cat desc arr code m one e =
      rw (parse_reaches_errors buf cat desc arr m, one, entry_links arr 0 code [] e) refl

  many_errors :
      (cat : Category) (desc : CStr) (arr : Array) (k : ℕ) (first second : ℤ)
      → json.get_count arr ≡ suc (suc k)
      → k < 98
      → IsEntry json arr 0 first
      → IsEntry json arr 1 second
      → parse_errors json cat desc (some arr) ≡ none
  unfolding parse_errors link
  many_errors cat desc arr k first second count most e f =
      let below : leb 100 (suc (suc k)) ≡ false = ground arith in
      rw (count, below, entry_links arr 0 first [] e, entry_links arr 1 second _ f) (ground arith)

  -- A message with 2 to 99 errors, the first two of them well-formed, is stored through NULL.
  pub parse_protocol_error_faults :
      (buf : CStr) (cat : Category) (desc : CStr) (arr : Array) (first second : ℤ)
      → IsMessage json buf cat desc arr
      → 2 ≤ json.get_count arr
      → json.get_count arr < 100
      → IsEntry json arr 0 first
      → IsEntry json arr 1 second
      → parse_protocol_error json (some buf) ≡ none
  parse_protocol_error_faults buf cat desc arr first second m two most e f =
      let k = json.get_count arr - 2 in
      let count : json.get_count arr ≡ suc (suc k) = omega arith in
      rw (parse_reaches_errors buf cat desc arr m)
        (many_errors cat desc arr k first second count (omega arith) e f)
