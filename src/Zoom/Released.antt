-- ===== src/Zoom/Released.antt =====
-- zoom: what each function of the binding and its sample client leave alive.
use yazpp.Prelude.{
  ℕ, zero, suc, ◌+◌, ◌≡◌, refl, sym, subst, ◌⊎◌, inl, inr, List, ◌∷◌, Option, none, some,
  Bool-cases, Option-cases,
}
use yazpp.Prelude.Int.{ℤ, pos, negsuc, ◌==ℤ◌}
use yazpp.Apdu.{Octets}
use yazpp.Prelude.Text.{codes}
use yazpp.Zoom.Calls.{Object, connection, query, result_set, Api, pure, as_string}
use yazpp.Zoom.{
  Record, prefix_query, checked_search, new_result_set, found_record, new_record, get, recsyn,
  render, syntax_of,
}
use yazpp.Zoom.Client.{show_found, show_record, show_records, found, search_in}
use yazpp.Zoom.Lifetimes.{Alive, Run, Kept, >>=-Run, >>=-Kept, with_object-Kept}

module _ {W : Type 0} where
  -- A string that YAZ does not have, and the binding reads without a test.
  abbrev pub Null : Api W → Type 0
  Null api =
      ((c : ℕ) × (w : W) × ((api.connection_error c w).1 ≡ none))
      ⊎ ((r : ℕ) × (what : Octets) × (w : W) × (api.record_get r what w ≡ none))

module _ {W : Type 0} (api : Api W) where
  as_string-Kept {ℓ} :
      {A : Type ℓ} (s : List Object) (o : Option A) (w : W)
      → (o ≡ none → Null api)
      → Kept (Null api) (λ a. s) s s (as_string o w)
  as_string-Kept s none w n = (s, refl, n refl)
  as_string-Kept s (some a) w n = (s, refl, refl)

  prefix_query-Kept :
      (pqn : Octets) (s : List Object) (w : W)
      → Kept (Null api) (λ q. query q ∷ s) s s (prefix_query api pqn w)
  unfolding prefix_query
  prefix_query-Kept pqn s w =
      let (q, w1) = api.query_create w in
      let (res, w2) = api.query_prefix q pqn w1 in
      elim (Bool-cases (res ==ℤ negsuc 0)) [
        | inl bad ↦ rw bad (s, (inl refl, (refl, refl)), (refl, tt))
        | inr good ↦ rw good (query q ∷ s, (inl refl, refl), refl)
      ]

  checked_search-Kept :
      (rs : ℕ) (e : ℤ × Option Octets) (s : List Object) (w : W)
      → (e.1 ≡ none → Null api)
      → Kept (Null api) (λ h. result_set h ∷ s) s (result_set rs ∷ s) (checked_search api rs e w)
  checked_search-Kept rs (code, none) s w n = elim (Bool-cases (code ==ℤ pos 0)) [
    | inl ok ↦ rw ok (result_set rs ∷ s, refl, refl)
    | inr failed ↦ rw failed (s, (refl, refl), n refl)
  ]
  checked_search-Kept rs (code, some info) s w n = elim (Bool-cases (code ==ℤ pos 0)) [
    | inl ok ↦ rw ok (result_set rs ∷ s, refl, refl)
    | inr failed ↦ rw failed (s, (refl, refl), (refl, tt))
  ]

  new_result_set-Kept :
      (c q : ℕ) (s : List Object) (w : W)
      → Alive (query q) s
      → Alive (connection c) s
      → Kept (Null api) (λ rs. result_set rs ∷ s) s s (new_result_set api c q w)
  unfolding new_result_set
  new_result_set-Kept c q s w hq hc =
      let (rs, w1) = api.connection_search c q w in
      let (t, h, e) =
        checked_search-Kept rs (api.connection_error c w1) s w1 (λ n. inl (c, w1, n)) in
      (t, (hq, (hc, (inr hc, h))), e)

  -- A record has its result set as owner.
  abbrev Owned : ℕ → List Object → Record → List Object → Type 0
  Owned rs s rec t = (t ≡ s) × (rec.owner ≡ rs)

  found_record-Owned :
      (c rs : ℕ) (o : Option ℕ) (s : List Object) (w : W)
      → Alive (connection c) s
      → Run (Null api) (Owned rs s) (λ t. t ≡ s) s (found_record api c rs o w)
  found_record-Owned c rs (some r) s w hc = (s, refl, (refl, refl))
  found_record-Owned c rs none s w hc = elim (Option-cases (api.connection_error c w).1) [
    | inl e ↦ rw e (s, (hc, refl), inl (c, w, e))
    | inr (info, e) ↦ rw e (s, (hc, refl), (refl, tt))
  ]

  new_record-Owned :
      (c rs i : ℕ) (s : List Object) (w : W)
      → Alive (result_set rs) s
      → Alive (connection c) s
      → Run (Null api) (Owned rs s) (λ t. t ≡ s) s (new_record api c rs i w)
  unfolding new_record
  new_record-Owned c rs i s w hrs hc =
      let (r, w1) = api.resultset_record rs i w in
      let (t, h, e) = found_record-Owned c rs r s w1 hc in (t, (hrs, h), e)

  get-Kept :
      (rec : Record) (what : Octets) (s : List Object) (w : W)
      → Alive (result_set rec.owner) s
      → Kept (Null api) (λ d. s) s s (get api rec what w)
  get-Kept rec what s w h =
      let (t, h', e) =
        as_string-Kept s (api.record_get rec.r what w) w (λ n. inr (rec.r, what, w, n)) in
      (t, (h, h'), e)

  recsyn-Kept :
      (rec : Record) (s : List Object) (w : W)
      → Alive (result_set rec.owner) s
      → Kept (Null api) (λ d. s) s s (recsyn api rec w)
  unfolding recsyn
  recsyn-Kept rec s w h =
      >>=-Kept (Null api) (λ d. s) (λ d. s) s s (get api rec (codes "syntax"))
        (λ syn. pure (syntax_of api syn)) w (get-Kept rec (codes "syntax") s w h)
        λ syn w'. (s, refl, refl)

  -- The line of a record, once the record is there.
  shown-Kept :
      (i : ℕ) (rec : Record) (s : List Object) (w : W)
      → Alive (result_set rec.owner) s
      → Kept (Null api) (λ d. s) s s (show_found api i rec w)
  unfolding render
  shown-Kept i rec s w h =
      >>=-Kept (Null api) (λ d. s) (λ d. s) s s (recsyn api rec) _ w (recsyn-Kept rec s w h)
        λ syn w1.
          >>=-Kept (Null api) (λ d. s) (λ d. s) s s (render api rec) _ w1
            (get-Kept rec (codes "render") s w1 h) λ body w2. (s, refl, refl)

  show_record-Kept :
      (c rs i : ℕ) (s : List Object) (w : W)
      → Alive (result_set rs) s
      → Alive (connection c) s
      → Kept (Null api) (λ d. s) s s (show_record api c rs i w)
  show_record-Kept c rs i s w hrs hc =
      >>=-Run (Null api) (Owned rs s) (λ d t. t ≡ s) (λ t. t ≡ s) s (new_record api c rs i)
        (show_found api i) w (new_record-Owned c rs i s w hrs hc)
        λ rec t w' p.
          subst (λ v. Kept (Null api) (λ d. s) s v (show_found api i rec w')) (sym p.0)
            (shown-Kept i rec s w' (subst (λ n. Alive (result_set n) s) (sym p.1) hrs))

  show_records-Kept :
      (c rs left i : ℕ) (s : List Object) (w : W)
      → Alive (result_set rs) s
      → Alive (connection c) s
      → Kept (Null api) (λ d. s) s s (show_records api c rs left i w)
  unfolding show_records
  show_records-Kept c rs zero i s w hrs hc = (s, refl, refl)
  show_records-Kept c rs (suc left) i s w hrs hc =
      >>=-Kept (Null api) (λ d. s) (λ d. s) s s (show_record api c rs i) _ w
        (show_record-Kept c rs i s w hrs hc) λ d w'. show_records-Kept c rs left (i + 1) s w' hrs hc

  found-Kept :
      (c rs : ℕ) (s : List Object) (w : W)
      → Alive (result_set rs) s
      → Alive (connection c) s
      → Kept (Null api) (λ d. s) s s (found api c rs w)
  found-Kept c rs s w hrs hc =
      let (t, h, e) = show_records-Kept c rs (api.resultset_size rs w) 0 s w hrs hc in
      (t, (hrs, h), e)

  pub search_in-Kept :
      (c : ℕ) (pqn : Octets) (s : List Object) (w : W)
      → Alive (connection c) s
      → Kept (Null api) (λ d. s) s s (search_in api c pqn w)
  search_in-Kept c pqn s w hc =
      with_object-Kept (Null api) api query s (prefix_query api pqn) _ w (prefix_query-Kept pqn s w)
        λ q w1.
          with_object-Kept (Null api) api result_set (query q ∷ s) (new_result_set api c q) _ w1
            (new_result_set-Kept c q (query q ∷ s) w1 (inl refl) (inr hc))
            λ rs w2. found-Kept c rs (result_set rs ∷ query q ∷ s) w2 (inl refl) (inr (inr hc))
