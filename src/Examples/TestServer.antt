-- ===== src/Examples/TestServer.antt =====
-- A small JSON and a server, for runs of the queries.
use libamvp.Common.{
  false, ◌&&◌, Option, none, some, List, [], ◌∷◌, ◌==◌, codes, pos, length, map, get_elem?, is_some,
  if◌then◌else◌,
}
use libamvp.Result.{success}
use libamvp.SafeC.Errno.{CStr}
use libamvp.SafeC.Compare.{head_byte}
use libamvp.Protocol.Json.{Json}
use libamvp.Env.Query.{Server}

-- A small JSON: an entry with its strings and its dependency URLs, a page with its entries and the
-- next page, the links of a page.
pub data Tree : Type 0 where
  entry : List (CStr × CStr) → List CStr → Tree
  page : List (List (CStr × CStr) × List CStr) → Option CStr → Tree
  links : Option CStr → Tree
  text : CStr → Tree

abbrev pub string_in : List (CStr × CStr) → CStr → Option CStr
string_in [] name = none
string_in ((key, value) ∷ ss) name =
    if length key == length name && head_byte key == head_byte name
    then some value
    else string_in ss name

abbrev pub get_string : Tree → CStr → Option CStr
get_string (entry ss urls) name = string_in ss name
get_string (page es next) name = none
get_string (links next) name = next
get_string (text t) name = none

abbrev pub entries : Tree → CStr → Option (List Tree)
entries (entry ss urls) name = some (map (λ (u : CStr). text u) urls)
entries (page es next) name = some (map (λ (e : List (CStr × CStr) × List CStr). entry e.0 e.1) es)
entries (links next) name = none
entries (text t) name = none

abbrev pub links_in : Tree → CStr → Option Tree
links_in (page es next) name = some (links next)
links_in t name = none

abbrev pub text_of : Option Tree → Option CStr
text_of none = none
text_of (some (text t)) = some t
text_of (some t) = none

abbrev pub stale_page : Tree
stale_page =
    page
      (((codes "name", codes "lib") ∷ (codes "series", codes "1") ∷ [], [])
        ∷ ((codes "name", codes "lib") ∷ (codes "url", codes "/9") ∷ [], [])
        ∷ [])
      none

abbrev pub module_page : Tree
module_page =
    page
      ((
        (codes "type", codes "Software")
            ∷ (codes "name", codes "core")
            ∷ (codes "version", codes "1")
            ∷ (codes "description", codes "core")
            ∷ (codes "vendorUrl", codes "/v/4")
            ∷ (codes "addressUrl", codes "/a/4")
            ∷ (codes "url", codes "/m/6")
            ∷ [],
        codes "/p/1" ∷ [],
      )
        ∷ [])
      none

-- The body 1 leads to the page 2, every other body is a page with an entry.
abbrev pub read_page : CStr → Tree
read_page body =
    if head_byte body == b'1'
    then page [] (some (codes "2"))
    else (if head_byte body == b'3'
        then stale_page
        else (if head_byte body == b'5'
            then module_page
            else page
                (((codes "name", codes "lib") ∷ (codes "url", codes "/9") ∷ [], codes "/8" ∷ [])
                  ∷ [])
                none))

abbrev pub tree_json : Json Tree (List Tree) Tree
tree_json = record {
  parse_string = λ s. elim s [ none ↦ none | some t ↦ some (read_page t) ];
  get_array = λ v. some (v ∷ []);
  get_count = λ a. length a;
  get_object = λ a i. get_elem? a i;
  has_value = λ o name. is_some (get_string o name);
  get_string = λ o name. get_string o name;
  get_array_of = λ o name. entries o name;
  get_object_of = λ o name. links_in o name;
  has_number = λ o name. false;
  get_number = λ o name. pos 0;
  get_string_at = λ a i. text_of (get_elem? a i);
  get_boolean = λ o name. none;
}

-- The server sends the endpoint back as the body, and the page 1 for the first request.
abbrev pub test_server : Server CStr
test_server = record {
  transport_get =
      λ endpoint params w. (success, if head_byte endpoint == b'2' then codes "2" else codes "1");
  curl_buf = λ w. some w;
  path_segment = λ w. codes "/";
}
