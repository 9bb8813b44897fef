-- ===== src/Env/Vendors.antt =====
-- query_vendor_contacts, match_vendors_page, query_vendor of src/amvp_operating_env.c. Allocations
-- succeed and the context is not NULL; `none` on fuel is a loop that has not ended.
use libamvp.Common.{
  ℕ, zero, suc, ◌+◌, Bool, true, false, Option, none, some, List, [], ◌∷◌, if◌then◌else◌, codes,
}
use libamvp.Result.{Result, success, json_err, is_success}
use libamvp.SafeC.Errno.{CStr}
use libamvp.Protocol.Json.{Json}
use libamvp.Env.Types.{Address, Phone, Person, Vendor}
use libamvp.Env.Pages.{
  Page, failed, onwards, copied_url, next_endpoint, get_obj_from_rsp, found_page,
}
use libamvp.Env.Query.{Server}
use libamvp.Env.Contacts.{
  same_string, compare_emails, compare_phone_numbers, compare_vendor_address,
}

-- A comparison's result: a loop that has not ended, an error, no match, or a match.
unfoldable pub checked :
    {A : Type 0} → Option (Result × Bool) → (Result → A) → Option A → Option A → Option A
checked none fail next go = none
checked (some (rv, equal)) fail next go =
    if is_success rv then (if equal then go else next) else some (fail rv)

-- An error of the search for a contact, or its end and whether a contact matched.
pub data Contact : Type 0 where
  broken : Result → Contact
  settled : Bool → Person → Contact

-- What a call leaves: a result, a match, the contacts and the state.
abbrev pub Contacted : Type 0 → Type 0
Contacted W = Option (Result × Bool × List Person × W)

abbrev pub with_person : {W : Type 0} → Person → Contacted W → Contacted W
with_person p none = none
with_person p (some (rv, match, persons, w)) = some (rv, match, p ∷ persons, w)

-- The contacts after the first that has no match stay as they are.
unfoldable pub after_contact :
    {W : Type 0} → Option Contact → Person → List Person → W → Contacted W → Contacted W
after_contact none person persons w rest = none
after_contact (some (broken rv)) person persons w rest = some (rv, false, person ∷ persons, w)
after_contact (some (settled match p)) person persons w rest =
    if match then with_person p rest else some (success, false, p ∷ persons, w)

module _ {Value Array Object : Type 0} (json : Json Value Array Object) where
  open json use {parse_string, get_count, get_object, get_string, get_array_of, get_object_of}

  unfoldable pub emails_check : ℕ → List CStr → Option Array → Option (Result × Bool)
  emails_check fuel emails none = some (json_err, true)
  emails_check fuel emails (some arr) = compare_emails json fuel emails arr true

  unfoldable pub phones_check : List Phone → Option Array → Option (Result × Bool)
  phones_check phones none = some (success, true)
  phones_check phones (some arr) = some (compare_phone_numbers json phones arr true)

  -- The person's URL is allocated or cleared before the entry's is read.
  unfoldable pub settle_contact : Person → Option CStr → Contact
  settle_contact person none = settled false (record person { url = some [] })
  settle_contact person (some url) = settled true (record person { url = copied_url url })

  unfoldable pub contact_named : ℕ → Person → Object → Option CStr → Option Contact → Option Contact
  unfolding checked emails_check phones_check settle_contact
  contact_named fuel person obj none next = some (broken json_err)
  contact_named fuel person obj (some full_name) next =
      let phones = phones_check person.phone_numbers (get_array_of obj (codes "phoneNumbers")) in
      let emails = emails_check fuel person.emails (get_array_of obj (codes "emails")) in
      let contact = some (settle_contact person (get_string obj (codes "url"))) in
      if same_string person.full_name (some full_name)
      then checked emails broken next (checked phones broken next contact)
      else next

  unfoldable pub contact_entry : ℕ → Person → Option Object → Option Contact → Option Contact
  unfolding contact_named
  contact_entry fuel person none next = some (broken json_err)
  contact_entry fuel person (some obj) next =
      contact_named fuel person obj (get_string obj (codes "fullName")) next

  unfoldable pub contact_loop : ℕ → Person → ℕ → ℕ → Option Array → Option Contact
  unfolding contact_entry
  contact_loop fuel person n i none = some (settled false person)
  contact_loop fuel person zero i (some arr) = some (settled false person)
  contact_loop fuel person (suc n) i (some arr) =
      let next = contact_loop fuel person n (i + 1) (some arr) in
      contact_entry fuel person (get_object arr i) next

  abbrev pub count_of : Option Array → ℕ
  count_of none = 0
  count_of (some arr) = get_count arr

  unfoldable pub vendor_links : Option Object → Page
  vendor_links none = failed json_err
  vendor_links (some links) = onwards (next_endpoint (get_string links (codes "nextPage")))

  module _ {W : Type 0} (server : Server W) where
    open server use {transport_get, curl_buf, path_segment}

    unfoldable pub persons_loop : ℕ → List Person → Option Array → W → Contacted W
    unfolding contact_loop after_contact
    persons_loop fuel [] given w = some (success, true, [], w)
    persons_loop fuel (p ∷ ps) given w =
        let rest = persons_loop fuel ps given w in
        after_contact (contact_loop fuel p (count_of given) 0 given) p ps w rest

    unfoldable pub contacts_page : ℕ → List Person → Option Object → W → Contacted W
    unfolding persons_loop
    contacts_page fuel persons none w = some (json_err, false, persons, w)
    contacts_page fuel persons (some obj) w =
        persons_loop fuel persons (get_array_of obj (codes "data")) w

    unfoldable pub contacts_value : ℕ → List Person → Option Value → W → Contacted W
    unfolding contacts_page
    contacts_value fuel persons none w = some (json_err, false, persons, w)
    contacts_value fuel persons (some val) w =
        contacts_page fuel persons (get_obj_from_rsp json val) w

    unfoldable pub contacts_answer : ℕ → List Person → Result × W → Contacted W
    unfolding contacts_value
    contacts_answer fuel persons (rv, w) =
        if is_success rv
        then contacts_value fuel persons (parse_string (curl_buf w)) w
        else some (rv, false, persons, w)

    abbrev pub has_none : List Person → Bool
    has_none [] = true
    has_none (p ∷ ps) = false

    unfoldable pub query_vendor_contacts : ℕ → List Person → Option CStr → W → Contacted W
    unfolding contacts_answer
    query_vendor_contacts fuel persons none w = some (success, has_none persons, persons, w)
    query_vendor_contacts fuel persons (some endpoint) w =
        contacts_answer fuel persons (transport_get endpoint [] w)

    -- A page's outcome, the vendor and the state.
    abbrev pub Matched : Type 0
    Matched = Option (Page × Vendor × W)

    abbrev pub Next : Type 0
    Next = Vendor → W → Matched

    abbrev pub failed_with : Vendor → W → Result → Page × Vendor × W
    failed_with vendor w rv = (failed rv, vendor, w)

    -- The result of the contacts is not read, only whether they match.
    unfoldable pub after_contacts : Object → Vendor → Contacted W → Next → Matched
    after_contacts obj vendor none next = none
    after_contacts obj vendor (some (rv, equal, persons, w)) next =
        let vendor' = record vendor { persons = persons } in
        if equal then some (found_page json obj, vendor', w) else next vendor' w

    unfoldable pub after_address :
        ℕ → Object → Vendor → Result × Bool × Address → W → Next → Matched
    unfolding after_contacts query_vendor_contacts
    after_address fuel obj vendor (rv, equal, address) w next =
        let vendor' = record vendor { address = address } in
        let contacts =
          query_vendor_contacts fuel vendor.persons (get_string obj (codes "contactsUrl")) w in
        checked (some (rv, equal)) (failed_with vendor' w) (next vendor' w)
          (after_contacts obj vendor' contacts next)

    unfoldable pub vendor_address : ℕ → Object → Vendor → Option Array → W → Next → Matched
    unfolding after_address
    vendor_address fuel obj vendor none w next = some (failed json_err, vendor, w)
    vendor_address fuel obj vendor (some arr) w next =
        after_address fuel obj vendor (compare_vendor_address json vendor.address arr) w next

    unfoldable pub vendor_entry : ℕ → Vendor → Option Object → W → Next → Matched
    unfolding checked emails_check phones_check vendor_address
    vendor_entry fuel vendor none w next = some (failed json_err, vendor, w)
    vendor_entry fuel vendor (some obj) w next =
        let emails = emails_check fuel vendor.emails (get_array_of obj (codes "emails")) in
        let phones = phones_check vendor.phone_numbers (get_array_of obj (codes "phoneNumbers")) in
        checked emails (failed_with vendor w) (next vendor w) (
          checked phones (failed_with vendor w) (next vendor w)
            (vendor_address fuel obj vendor (get_array_of obj (codes "addresses")) w next))

    unfoldable pub vendors_loop : ℕ → ℕ → ℕ → Array → Object → Next
    unfolding vendor_entry vendor_links
    vendors_loop fuel zero i arr obj vendor w =
        some (vendor_links (get_object_of obj (codes "links")), vendor, w)
    vendors_loop fuel (suc n) i arr obj vendor w =
        vendor_entry fuel vendor (get_object arr i) w (vendors_loop fuel n (i + 1) arr obj)

    unfoldable pub vendors_in : ℕ → Object → Option Array → Next
    unfolding vendors_loop vendor_links
    vendors_in fuel obj none vendor w =
        some (vendor_links (get_object_of obj (codes "links")), vendor, w)
    vendors_in fuel obj (some arr) vendor w = vendors_loop fuel (get_count arr) 0 arr obj vendor w

    unfoldable pub vendors_page : ℕ → Option Object → Next
    unfolding vendors_in
    vendors_page fuel none vendor w = some (failed json_err, vendor, w)
    vendors_page fuel (some obj) vendor w =
        vendors_in fuel obj (get_array_of obj (codes "data")) vendor w

    unfoldable pub vendors_value : ℕ → Option Value → Next
    unfolding vendors_page
    vendors_value fuel none vendor w = some (failed json_err, vendor, w)
    vendors_value fuel (some val) vendor w = vendors_page fuel (get_obj_from_rsp json val) vendor w

    unfoldable pub match_vendors_page : ℕ → Next
    unfolding vendors_value
    match_vendors_page fuel vendor w = vendors_value fuel (parse_string (curl_buf w)) vendor w
