-- ===== src/Functions/Laws.antt =====
-- Which functions the page shows, in which order, and how its pages divide the list.
use nanas.Prelude.{
  ℕ, zero, suc, ◌+◌, ◌-◌, ◌*◌, ◌≤◌, ◌≡◌, ◌≢◌, ◌↔◌, refl, ◌++◌, Bool, true, false, List, [], ◌∷◌,
  Option, none, some, ◌⊎◌, inl, inr, or_else, not, ◌&&◌, if◌then◌else◌, keep, arith, Listed, leb,
}
use nanas.Prelude.Text.{Text, codes, text_eq, text_eq_iff, is_empty, includes, to_lower}
use nanas.Prelude.Sort.{Listed-sort_by, Listed-keep, IsSorted, sort_by-IsSorted}
use nanas.Functions.{
  FunctionListItem, Filters, is_text, status_text, compute_function_status, deploy_time, matches,
  goes_before, filtered, list_request, Click, previous, next, click, has_prev, has_next,
}

-- The status that the page gives to a function.
abbrev pub IsOfStatus : (status : Text) → FunctionListItem → Type 0
IsOfStatus status it =
    ((status ≡ codes "failed") × (it.last_deployment_status ≡ some (codes "failed")))
    ⊎ ((status ≡ codes "active") × (it.last_deployment_status ≡ some (codes "active")))
    ⊎ ((status ≡ codes "draft")
        × (it.last_deployment_status ≢ some (codes "failed"))
        × (it.last_deployment_status ≢ some (codes "active")))

-- What the four inputs ask of a function.
abbrev pub IsAskedFor : Filters → FunctionListItem → Type 0
IsAskedFor f it =
    ((f.q ≡ [])
      ⊎ (includes (to_lower (it.name ++ (32 ∷ or_else it.slug []))) (to_lower f.q) ≡ true))
    × (((f.runtime ≡ codes "all") ⊎ (it.runtime ≡ some f.runtime))
        × (((f.status ≡ codes "all") ⊎ IsOfStatus f.status it)
            × ((f.visibility ≡ codes "all")
                ⊎ ((f.visibility ≡ codes "public") × (it.entrypoint_enabled ≡ true))
                ⊎ ((f.visibility ≢ codes "all")
                    × (f.visibility ≢ codes "public")
                    × (it.entrypoint_enabled ≡ false)))))

is_text_iff : (o : Option Text) (t : Text) → (is_text o t ≡ true) ↔ (o ≡ some t)
is_text_iff none t = ground arith
is_text_iff (some s) t = ground (arith, text_eq_iff s t)

status_iff :
    (it : FunctionListItem) (status : Text)
    → (text_eq (status_text (compute_function_status it)) status ≡ true) ↔ IsOfStatus status it
unfolding compute_function_status
status_iff it status = ground (
  arith,
  is_text_iff it.last_deployment_status (codes "failed"),
  is_text_iff it.last_deployment_status (codes "active"),
  text_eq_iff (codes "failed") status,
  text_eq_iff (codes "active") status,
  text_eq_iff (codes "draft") status,
)

is_empty_iff : (s : Text) → (is_empty s ≡ true) ↔ (s ≡ [])
is_empty_iff [] = (λ h. refl, λ h. refl)
is_empty_iff (c ∷ s) = (λ h. absurd (cc (h)), λ h. absurd (cc (h)))

-- An input that keeps everything, or asks for what a function has.
guard_iff :
    {P Q R : Type 0} (open_to ok rest : Bool)
    → (open_to ≡ true) ↔ P
    → (ok ≡ true) ↔ Q
    → (rest ≡ true) ↔ R
    → ((if not open_to && not ok then false else rest) ≡ true) ↔ ((P ⊎ Q) × R)
guard_iff true ok rest p q r = (λ h. (inl (p.0 refl), r.0 h), λ h. r.1 h.1)
guard_iff false true rest p q r = (λ h. (inr (q.0 refl), r.0 h), λ h. r.1 h.1)
guard_iff false false rest p q r = (
  λ h. absurd (cc (h)),
  λ h. elim h.0 [ inl x ↦ absurd (cc (p.1 x)) | inr y ↦ absurd (cc (q.1 y)) ],
)

visibility_iff :
    (visibility : Text) (enabled : Bool)
    → ((if text_eq visibility (codes "all")
          then true
          else if text_eq visibility (codes "public")
          then enabled
          else not enabled)
        ≡ true)
      ↔ ((visibility ≡ codes "all")
          ⊎ ((visibility ≡ codes "public") × (enabled ≡ true))
          ⊎ ((visibility ≢ codes "all") × (visibility ≢ codes "public") × (enabled ≡ false)))
visibility_iff visibility enabled =
    ground (arith, text_eq_iff visibility (codes "all"), text_eq_iff visibility (codes "public"))

matches_iff : (f : Filters) (it : FunctionListItem) → (matches f it ≡ true) ↔ IsAskedFor f it
unfolding matches
matches_iff f it =
    let all_of = λ (t : Text). text_eq_iff t (codes "all") in
    guard_iff _ _ _ (is_empty_iff f.q) (λ h. h, λ h. h)
      (guard_iff _ _ _ (all_of f.runtime) (is_text_iff it.runtime f.runtime) (
        guard_iff _ _ _ (all_of f.status) (status_iff it f.status)
          (visibility_iff f.visibility it.entrypoint_enabled)))

-- The page shows exactly the functions of the answer that the inputs ask for: whose name and slug
-- have the text, in whatever case, and which have the runtime, the status and the visibility that
-- are chosen.
pub Listed-filtered :
    (time : Text → ℕ) (name_order : Text → Text → Bool) (filters : Filters)
    (items : List FunctionListItem) (it : FunctionListItem)
    → Listed it (filtered time name_order filters (some items))
      ↔ (Listed it items × IsAskedFor filters it)
unfolding filtered
Listed-filtered time name_order filters items it =
    let kept = Listed-keep (matches filters) it items in
    let sorted =
      Listed-sort_by (goes_before time name_order filters.sort) it (keep (matches filters) items) in
    let asked = matches_iff filters it in
    (
      λ h. let (there, good) = kept.0 (sorted.0 h) in (there, asked.0 good),
      λ h. sorted.1 (kept.1 (h.0, asked.1 h.1)),
    )

filtered-goes_before :
    (time : Text → ℕ) (name_order : Text → Text → Bool) (filters : Filters)
    (items : List FunctionListItem)
    → ((x y z : Text) → name_order x y ≡ true → name_order y z ≡ true → name_order x z ≡ true)
    → ((x y : Text) → (name_order x y ≡ true) ⊎ (name_order y x ≡ true))
    → IsSorted
        (goes_before time name_order filters.sort)
        (filtered time name_order filters (some items))
unfolding filtered goes_before
filtered-goes_before time name_order filters items t c =
    sort_by-IsSorted (goes_before time name_order filters.sort) (keep (matches filters) items) trans
      total
  where
    trans :
        (x y z : FunctionListItem)
        → goes_before time name_order filters.sort x y ≡ true
        → goes_before time name_order filters.sort y z ≡ true
        → goes_before time name_order filters.sort x z ≡ true
    trans x y z = ground (arith, t x.name y.name z.name)

    total :
        (x y : FunctionListItem)
        → (goes_before time name_order filters.sort x y ≡ true)
          ⊎ (goes_before time name_order filters.sort y x ≡ true)
    total x y = ground (arith, c x.name y.name)

-- Where the order of names is total and transitive: sorted by name, the functions that the page shows
-- stand in that order; sorted by the last deployment, none stands before one that was deployed later,
-- where what was never deployed counts as deployed at time 0; and sorted by creation, none stands
-- before one that was created later.
pub filtered-IsSorted :
    (time : Text → ℕ) (name_order : Text → Text → Bool) (filters : Filters)
    (items : List FunctionListItem)
    → ((x y z : Text) → name_order x y ≡ true → name_order y z ≡ true → name_order x z ≡ true)
    → ((x y : Text) → (name_order x y ≡ true) ⊎ (name_order y x ≡ true))
    → (let by =
          λ (sort : Text). filtered time name_order (record filters { sort = sort }) (some items) in
        IsSorted (λ a b. name_order a.name b.name) (by (codes "name"))
        × IsSorted
            (λ a b. leb (deploy_time time name_order b) (deploy_time time name_order a))
            (by (codes "last_deployed_at"))
        × IsSorted (λ a b. leb (time b.created_at) (time a.created_at)) (by (codes "created_at")))
unfolding goes_before text_eq
filtered-IsSorted time name_order filters items t c =
    let by = λ (sort : Text).
      filtered-goes_before time name_order (record filters { sort = sort }) items t c in
    (by (codes "name"), by (codes "last_deployed_at"), by (codes "created_at"))

abbrev pub click_all : (page_size : ℕ) → List Click → ℕ → ℕ
click_all page_size [] page = page
click_all page_size (c ∷ cs) page = click_all page_size cs (click page_size none false c page)

times : (n size : ℕ) → suc n * size ≡ n * size + size
times n size = grind arith

next_range : (n size : ℕ) → (suc n + 1 - 1) * size ≡ (suc n - 1) * size + size
next_range n size =
    let up : suc n + 1 - 1 ≡ suc n = omega arith in
    let down : suc n - 1 ≡ n = omega arith in rw (up, down) (times n size)

-- From page 1, no sequence of clicks leads to a page below 1; and the range of a page ends where that
-- of the next begins.
pub click_all_lem :
    (page_size : ℕ) (cs : List Click) (page : ℕ)
    → 1 ≤ page
    → (1 ≤ click_all page_size cs page)
      × ((list_request (click_all page_size cs page + 1) page_size).1
          ≡ (list_request (click_all page_size cs page) page_size).1 + page_size)
unfolding click has_prev has_next list_request
click_all_lem page_size [] zero h = absurd (omega (arith, h))
click_all_lem page_size [] (suc n) h = (h, next_range n page_size)
click_all_lem page_size (previous ∷ cs) page h =
    click_all_lem page_size cs (click page_size none false previous page) (ground arith)
click_all_lem page_size (next ∷ cs) page h =
    click_all_lem page_size cs (click page_size none false next page) (ground arith)
