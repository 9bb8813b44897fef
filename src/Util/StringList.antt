-- ===== src/Util/StringList.antt =====
-- The lists of src/amvp_util.c: an integer list for AMVP_SL_LIST and AMVP_PARAM_LIST, a list of
-- string addresses for AMVP_NAME_LIST and of own strings for AMVP_STRING_LIST; NULL is `none`.
-- A failed allocation is not modelled.
use Prim.Native.Nat.{Ordering}
use libamvp.Common.{
  ℕ, ◌+◌, Bool, true, false, Option, none, some, List, [], ◌∷◌, ltb, ◌==◌, if◌then◌else◌, ℤ,
  replicate,
}
use libamvp.Result.{Result, success, no_data, invalid_arg}
use libamvp.SafeC.Errno.{CStr, until_nul}
use libamvp.SafeC.Compare.{strnlen_s, strncmp_s}
use libamvp.SafeC.Copy.{Copied, strcpy_s, strncpy_s}
use libamvp.Protocol.Errors.{same_int}

-- A list behind a pointer, which may be NULL itself.
abbrev pub ListPtr : Type 0 → Type 0
ListPtr A = Option (List A)

-- The loops go to the last node and link a new one there.
unfoldable pub append_node : {A : Type 0} → List A → A → List A
append_node [] a = a ∷ []
append_node (x ∷ xs) a = x ∷ append_node xs a

unfoldable pub append_sl_list : ListPtr ℤ → ℤ → Result × ListPtr ℤ
unfolding append_node
append_sl_list none length = (no_data, none)
append_sl_list (some list) length = (success, some (append_node list length))

unfoldable pub append_param_list : ListPtr ℤ → ℤ → Result × ListPtr ℤ
unfolding append_node
append_param_list none param = (no_data, none)
append_param_list (some list) param = (success, some (append_node list param))

unfoldable pub lookup_param_list : List ℤ → ℤ → Bool
lookup_param_list [] value = false
lookup_param_list (param ∷ list) value =
    if same_int value param then true else lookup_param_list list value

-- The first node without a name takes the address, or else a new last node.
unfoldable pub append_name : List (Option ℕ) → ℕ → List (Option ℕ)
append_name [] string = some string ∷ []
append_name (none ∷ list) string = some string ∷ list
append_name (some name ∷ list) string = some name ∷ append_name list string

unfoldable pub append_name_list : ListPtr (Option ℕ) → ℕ → Result × ListPtr (Option ℕ)
unfolding append_name
append_name_list none string = (no_data, none)
append_name_list (some list) string = (success, some (append_name list string))

unfoldable pub is_in_name_list : List (Option ℕ) → ℕ → Bool
is_in_name_list [] string = false
is_in_name_list (none ∷ list) string = is_in_name_list list string
is_in_name_list (some name ∷ list) string =
    if name == string then true else is_in_name_list list string

abbrev pub string_list_max_len : ℕ
string_list_max_len = 256

-- The string in the object that a copy left.
abbrev pub word_of : Copied → Option CStr
word_of (some (e, some b)) = some (until_nul b)
word_of r = none

unfoldable pub append_word : List (Option CStr) → Option CStr → Result × ListPtr (Option CStr)
unfolding append_node
append_word list word = (success, some (append_node list word))

unfoldable pub append_str_list : ListPtr (Option CStr) → CStr → Result × ListPtr (Option CStr)
unfolding append_word
append_str_list none string = (no_data, none)
append_str_list (some list) string =
    let len = strnlen_s (some string) string_list_max_len in
    append_word list
      (word_of (strncpy_s (some (replicate (len + 1) 0)) (len + 1) (some string) len none))

abbrev pub is_equal : Ordering → Bool
is_equal Ordering.eq = true
is_equal Ordering.lt = false
is_equal Ordering.gt = false

abbrev pub min_len : CStr → CStr → ℕ
min_len s t =
    let len1 = strnlen_s (some s) string_list_max_len in
    let len2 = strnlen_s (some t) string_list_max_len in if ltb len1 len2 then len1 else len2

-- `diff` keeps its value where strncmp_s fails.
abbrev pub diff_of : CStr → CStr → Ordering → Ordering
diff_of s string diff =
    (strncmp_s (some s) (strnlen_s (some s) string_list_max_len) (some string) (min_len s string)
      diff).1

unfoldable pub lookup_loop : List (Option CStr) → CStr → Ordering → Bool
lookup_loop [] string diff = false
lookup_loop (none ∷ list) string diff = false
lookup_loop (some s ∷ list) string diff =
    let rest = lookup_loop list string (diff_of s string diff) in
    if is_equal (diff_of s string diff) then true else rest

unfoldable pub lookup_str_list : ListPtr (Option CStr) → Option CStr → Bool
unfolding lookup_loop
lookup_str_list none string = false
lookup_str_list (some list) none = false
lookup_str_list (some list) (some string) = lookup_loop list string Ordering.gt

unfoldable pub string_fits : CStr → ℕ → Bool
string_fits string max_allowed =
    if ltb max_allowed (strnlen_s (some string) (max_allowed + 1)) then false else true

abbrev pub kv_str_max : ℕ
kv_str_max = 256

-- A key and a value in objects of 257 bytes.
unfoldable pub kv_node : CStr → CStr → Option CStr × Option CStr
kv_node key value =
    let space = some (replicate (kv_str_max + 1) 0) in
    (
      word_of (strcpy_s space (kv_str_max + 1) (some key)),
      word_of (strcpy_s space (kv_str_max + 1) (some value)),
    )

abbrev pub KvList : Type 0
KvList = ListPtr (Option CStr × Option CStr)

unfoldable pub kv_list_append : KvList → Option CStr → Option CStr → Result × KvList
unfolding string_fits kv_node append_node
kv_list_append none key value = (invalid_arg, none)
kv_list_append (some kvs) none value = (invalid_arg, some kvs)
kv_list_append (some kvs) (some key) none = (invalid_arg, some kvs)
kv_list_append (some kvs) (some key) (some value) =
    if string_fits key kv_str_max
    then (if string_fits value kv_str_max
        then (success, some (append_node kvs (kv_node key value)))
        else (invalid_arg, some kvs))
    else (invalid_arg, some kvs)
