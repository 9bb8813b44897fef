-- ===== src/Flow/Registered.antt =====
-- What a registration leaves in the session.
use libamvp.Common.{
  ℕ, zero, suc, ◌+◌, ◌≡◌, ◌≢◌, refl, ap, ◌∙◌, false, Option, none, some, List, [], ◌∷◌, ◌++◌, map,
  codes, if-split, arith, ◌⊎◌, inl, inr,
}
use libamvp.Result.{Result, success, json_err, jwt_invalid, is_success}
use libamvp.SafeC.Errno.{CStr}
use libamvp.Util.Appending.{append_node_lem}
use libamvp.Protocol.Json.{Json}
use libamvp.Env.Pages.{copied_url, get_obj_from_rsp}
use libamvp.Flow.State.{Session}
use libamvp.Flow.Requests.{text_or_empty}
use libamvp.Flow.Login.{copied_token, token_too_large, string_of}
use libamvp.Flow.Register.{
  append_vsid_url, append_next, replaced_token, append_urls, append_all, array_of,
  take_session_token, take_session_url, parse_registered,
}

abbrev pub stored : CStr → CStr
stored url = text_or_empty (copied_url url)

append_one : (xs ys : List CStr) (x : CStr) → (xs ++ (x ∷ [])) ++ ys ≡ xs ++ (x ∷ ys)
append_one [] ys x = refl
append_one (z ∷ xs) ys x = ap (λ l. z ∷ l) (append_one xs ys x)

append_nil : (xs : List CStr) → xs ≡ xs ++ []
append_nil [] = refl
append_nil (x ∷ xs) = ap (λ l. x ∷ l) (append_nil xs)

abbrev pub front : Option CStr → List CStr → List CStr
front none urls = []
front (some url) urls = url ∷ urls

-- The URLs are added behind the list, and the other fields stay.
abbrev pub Adds : {R : Type 0} → List CStr → Session R → Result × Session R → Type 0
Adds urls s (rv, s') =
    (rv ≡ success)
    × (s'.vsid_url_list ≡ s.vsid_url_list ++ map stored urls)
    × (s'.jwt_token ≡ s.jwt_token)
    × (s'.session_url ≡ s.session_url)
    × (s'.curl_buf ≡ s.curl_buf)

append_next-Adds :
    {R : Type 0} (o : Option CStr) (urls : List CStr) (more : Session R → Result × Session R)
    (s : Session R)
    → ((t : Session R) → Adds urls t (more t))
    → Adds (front o urls) s (append_next o more s)
unfolding append_next append_vsid_url
append_next-Adds none urls more s h = (refl, append_nil s.vsid_url_list, refl, refl, refl)
append_next-Adds (some url) urls more s h =
    let (ok, l, j, u, b) = h (append_vsid_url s url).1 in
    (
      ok,
      l
          ∙ ap (λ xs. xs ++ map stored urls) (append_node_lem s.vsid_url_list (stored url))
          ∙ append_one s.vsid_url_list (map stored urls) (stored url),
      j,
      u,
      b,
    )

module _ {Value Array Object : Type 0} (json : Json Value Array Object) where
  -- The strings at the indices from `i` on, `n` of them, up to the first that is no string.
  abbrev pub leading : ℕ → ℕ → Array → List CStr
  leading zero i arr = []
  leading (suc n) i arr = front (json.get_string_at arr i) (leading n (i + 1) arr)

  abbrev pub urls_of : Option Array → List CStr
  urls_of none = []
  urls_of (some arr) = leading (json.get_count arr) 0 arr

  append_urls-Adds :
      {R : Type 0} (n i : ℕ) (arr : Array) (s : Session R)
      → Adds (leading n i arr) s (append_urls json n i arr s)
  unfolding append_urls
  append_urls-Adds zero i arr s = (refl, append_nil s.vsid_url_list, refl, refl, refl)
  append_urls-Adds (suc n) i arr s =
      append_next-Adds (json.get_string_at arr i) (leading n (i + 1) arr)
        (append_urls json n (i + 1) arr) s (append_urls-Adds n (i + 1) arr)

  append_all-Adds :
      {R : Type 0} (o : Option Array) (s : Session R) → Adds (urls_of o) s (append_all json o s)
  unfolding append_all
  append_all-Adds none s = (refl, append_nil s.vsid_url_list, refl, refl, refl)
  append_all-Adds (some arr) s = append_urls-Adds (json.get_count arr) 0 arr s

  -- What a success has stored: the URL and the token of the answer, and the vector sets behind
  -- those of the list; without a token before, none is stored.
  abbrev pub Stores : {R : Type 0} → Option Object → List CStr → Session R → Type 0
  Stores obj before s' =
      (url : CStr) × (access_token : CStr) × (string_of json obj (codes "url") ≡ some url)
      × (string_of json obj (codes "accessToken") ≡ some access_token)
      × (token_too_large access_token ≡ false)
      × (s'.session_url ≡ copied_url url)
      × ((s'.jwt_token ≡ copied_token access_token) ⊎ (s'.jwt_token ≡ none))
      × (s'.vsid_url_list
          ≡ before ++ map stored (urls_of (array_of json obj (codes "vectorSetUrls"))))

  -- An error keeps the list of vector sets.
  abbrev pub Registered : {R : Type 0} → List CStr → Result × Session R → Type 0
  Registered before (rv, s') =
      (rv ≢ success → s'.vsid_url_list ≡ before)
      × (rv ≡ success
          → (val : Value) × (json.parse_string s'.curl_buf ≡ some val)
            × Stores (get_obj_from_rsp json val) before s')

  replaced :
      (old : Option CStr) (t : CStr)
      → (replaced_token old t ≡ copied_token t) ⊎ (replaced_token old t ≡ none)
  replaced none t = inr refl
  replaced (some old) t = inl refl

  pub refused :
      {R : Type 0} (before : List CStr) (s' : Session R) (rv : Result)
      → is_success rv ≡ false
      → s'.vsid_url_list ≡ before
      → Registered before (rv, s')
  refused before s' rv b l = (λ h. l, λ h. ground (arith, b, h))

  take_session_token-Registered :
      {R : Type 0} (before : List CStr) (s : Session R) (val : Value) (url : CStr) (t : Option CStr)
      → json.parse_string s.curl_buf ≡ some val
      → string_of json (get_obj_from_rsp json val) (codes "url") ≡ some url
      → string_of json (get_obj_from_rsp json val) (codes "accessToken") ≡ t
      → s.session_url ≡ copied_url url
      → s.vsid_url_list ≡ before
      → Registered before (take_session_token json t (get_obj_from_rsp json val) s)
  unfolding take_session_token
  take_session_token-Registered before s val url none p u a c l = refused before s json_err refl l
  take_session_token-Registered before s val url (some t) p u a c l =
      let arr = array_of json (get_obj_from_rsp json val) (codes "vectorSetUrls") in
      let s' = record s { jwt_token = replaced_token s.jwt_token t } in
      let (ok, added, kept, same, buf) = append_all-Adds arr s' in
      if-split (Registered before) (token_too_large t) (λ big. refused before s jwt_invalid refl l)
        (λ fits. (
          λ n. absurd (n ok),
          λ h.
              let stores : Stores (get_obj_from_rsp json val) before (append_all json arr s').1 = (
                url,
                t,
                u,
                a,
                fits,
                same ∙ c,
                rw kept (replaced s.jwt_token t),
                added ∙ ap (λ xs. xs ++ map stored (urls_of arr)) l,
              ) in
              (val, ap json.parse_string buf ∙ p, stores),
        ))

  take_session_url-Registered :
      {R : Type 0} (s : Session R) (val : Value) (o : Option CStr)
      → json.parse_string s.curl_buf ≡ some val
      → string_of json (get_obj_from_rsp json val) (codes "url") ≡ o
      → Registered s.vsid_url_list (take_session_url json o (get_obj_from_rsp json val) s)
  unfolding take_session_url
  take_session_url-Registered s val none p u = refused s.vsid_url_list s json_err refl refl
  take_session_url-Registered s val (some url) p u =
      take_session_token-Registered s.vsid_url_list (record s { session_url = copied_url url }) val
        url (string_of json (get_obj_from_rsp json val) (codes "accessToken")) p u refl refl refl

  pub parse_registered-Registered :
      {R : Type 0} (s : Session R) (v : Option Value)
      → json.parse_string s.curl_buf ≡ v
      → Registered s.vsid_url_list (parse_registered json v s)
  unfolding parse_registered
  parse_registered-Registered s none p = refused s.vsid_url_list s json_err refl refl
  parse_registered-Registered s (some val) p =
      take_session_url-Registered s val (string_of json (get_obj_from_rsp json val) (codes "url")) p
        refl
