-- ===== src/Realtime/Stream/Selection/Laws.antt =====
-- What the boxes select, and when the hook subscribes anew.
use nanas.Prelude.{
  ℕ, ◌≡◌, ◌≢◌, refl, sym, ap, ◌∙◌, Bool, true, false, not, List, [], ◌∷◌, ◌++◌, map, keep,
  if◌then◌else◌, arith, Bool-cases, inl, inr, ◌⊎◌, ◌==◌, append-nil,
}
use nanas.Prelude.Text.{Text, codes, text_eq, text_eq_iff, join, is_empty}
use nanas.Prelude.Scan.{all-AllIn, take_while, AllIn, take_while-run, StopsAt}
use nanas.Prelude.Names.{
  contains, IsDistinct, contains-added, contains-keep, contains-unique, unique-IsDistinct,
  keep-IsDistinct,
}
use nanas.Realtime.Wire.{Env}
use nanas.Realtime.Channels.{Hook, run_effect, clean_up}
use nanas.Realtime.Stream.Selection.{
  Channel, triggers, objects, entrypoint, cdc, channel_text, ChannelsTab, checked, select, props,
  effect_key, end_effect, call_hook, on_checked,
}

abbrev pub same_channel : Channel → Channel → Bool
same_channel a b = text_eq (channel_text a) (channel_text b)

pub checked-select :
    (v : Bool) (c d : Channel) (prev : List Channel)
    → checked (select v c prev) d ≡ (if same_channel c d then v else checked prev d)
unfolding checked select contains
checked-select true c d prev =
    let kept = contains-unique channel_text [] (prev ++ (c ∷ [])) (channel_text d) in
    let more = contains-added channel_text prev c (channel_text d) in ground (arith, kept, more)
checked-select false c d prev =
    ground (arith, contains-keep channel_text prev (channel_text c) (channel_text d))

select-IsDistinct :
    (v : Bool) (c : Channel) (prev : List Channel)
    → IsDistinct (map channel_text prev)
    → IsDistinct (map channel_text (select v c prev))
unfolding select
select-IsDistinct true c prev h = unique-IsDistinct channel_text [] (prev ++ (c ∷ []))
select-IsDistinct false c prev h =
    keep-IsDistinct channel_text (λ x. not (text_eq (channel_text x) (channel_text c))) prev h

-- The name of a channel tells which it is, and has no bar.
abbrev named : Text → List Channel
named t = keep (λ c. text_eq (channel_text c) t) (triggers ∷ objects ∷ entrypoint ∷ cdc ∷ [])

named-channel_text : (c : Channel) → named (channel_text c) ≡ c ∷ []
unfolding text_eq
named-channel_text triggers = refl
named-channel_text objects = refl
named-channel_text entrypoint = refl
named-channel_text cdc = refl

channel_text-injective : (c d : Channel) → channel_text c ≡ channel_text d → c ≡ d
channel_text-injective c d h = cc (named-channel_text c, ap named h, named-channel_text d)

abbrev not_bar : ℕ → Bool
not_bar c = not (c == b'|')

channel_text-AllIn : (c : Channel) → AllIn not_bar (channel_text c)
channel_text-AllIn triggers = (all-AllIn not_bar (channel_text triggers)).0 refl
channel_text-AllIn objects = (all-AllIn not_bar (channel_text objects)).0 refl
channel_text-AllIn entrypoint = (all-AllIn not_bar (channel_text entrypoint)).0 refl
channel_text-AllIn cdc = (all-AllIn not_bar (channel_text cdc)).0 refl

-- What `join` writes after the first name.
abbrev after_bar : List Text → Text
after_bar [] = []
after_bar (q ∷ qs) = codes "|" ++ join (codes "|") (q ∷ qs)

join-after_bar : (p : Text) (ps : List Text) → join (codes "|") (p ∷ ps) ≡ p ++ after_bar ps
unfolding join
join-after_bar p [] = sym (append-nil p)
join-after_bar p (q ∷ qs) = refl

after_bar-StopsAt : (ps : List Text) → StopsAt not_bar (after_bar ps)
after_bar-StopsAt [] = tt
after_bar-StopsAt (q ∷ qs) = refl

take_while-join :
    (c : Channel) (cs : List Channel)
    → take_while not_bar (join (codes "|") (map channel_text (c ∷ cs)))
      ≡ (channel_text c, after_bar (map channel_text cs))
take_while-join c cs =
    let names = map channel_text cs in
    ap (take_while not_bar) (join-after_bar (channel_text c) names)
    ∙ take_while-run not_bar (channel_text c) (after_bar names) (channel_text-AllIn c)
        (after_bar-StopsAt names)

-- A selection can be read off the key of the effect.
join-injective :
    (cs ds : List Channel)
    → after_bar (map channel_text cs) ≡ after_bar (map channel_text ds)
    → cs ≡ ds
join-injective [] [] h = refl
join-injective [] (d ∷ ds) h = cc (h)
join-injective (c ∷ cs) [] h = cc (h)
join-injective (c ∷ cs) (d ∷ ds) h =
    let keys : join (codes "|") (map channel_text (c ∷ cs))
        ≡ join (codes "|") (map channel_text (d ∷ ds)) =
      cc (h) in
    let parts = sym (take_while-join c cs) ∙ ap (take_while not_bar) keys ∙ take_while-join d ds in
    cc
      (channel_text-injective c d (ap (λ z. z.0) parts), join-injective cs ds (ap (λ z. z.1) parts))

channel_text-full : (c : Channel) → is_empty (channel_text c) ≡ false
channel_text-full triggers = refl
channel_text-full objects = refl
channel_text-full entrypoint = refl
channel_text-full cdc = refl

join-full : (c : Channel) (cs : List Channel) → join (codes "|") (map channel_text (c ∷ cs)) ≢ []
unfolding take_while
join-full c cs e =
    let parts = sym (take_while-join c cs) ∙ ap (take_while not_bar) e in
    let named_nothing : channel_text c ≡ [] = ap (λ z. z.0) parts in
    cc (ap is_empty named_nothing, channel_text-full c)

effect_key-injective :
    (pid : Text) (cs ds : List Channel)
    → effect_key (props pid cs) ≡ effect_key (props pid ds)
    → cs ≡ ds
unfolding effect_key props
effect_key-injective pid [] [] h = refl
effect_key-injective pid [] (d ∷ ds) h = absurd (join-full d ds (sym h))
effect_key-injective pid (c ∷ cs) [] h = absurd (join-full c cs h)
effect_key-injective pid (c ∷ cs) (d ∷ ds) h =
    join-injective (c ∷ cs) (d ∷ ds) (ap (λ z. codes "|" ++ z) h)

-- What the boxes were set to, one after the other.
abbrev pub last_choice : List (Bool × Channel) → Channel → Bool → Bool
last_choice [] d at_first = at_first
last_choice ((v, c) ∷ es) d at_first = last_choice es d (if same_channel c d then v else at_first)

module _ (encode : Text → Text) (env : Env) (pid : Text) where
  abbrev pub on_checked_all : List (Bool × Channel) → ChannelsTab → ChannelsTab
  on_checked_all [] tab = tab
  on_checked_all ((v, c) ∷ es) tab = on_checked_all es (on_checked encode env pid v c tab)

  -- Whatever is checked and unchecked, in whatever order, no channel is selected twice, and each is
  -- selected exactly if its box was checked last, or is as it was where its box was left alone.
  pub on_checked_all-selected :
      (es : List (Bool × Channel)) (tab : ChannelsTab) (d : Channel)
      → IsDistinct (map channel_text tab.selected)
      → IsDistinct (map channel_text (on_checked_all es tab).selected)
        × (checked (on_checked_all es tab).selected d ≡ last_choice es d (checked tab.selected d))
  unfolding on_checked
  on_checked_all-selected [] tab d h = (h, refl)
  on_checked_all-selected ((v, c) ∷ es) tab d h =
      let (apart, as_chosen) =
        on_checked_all-selected es (on_checked encode env pid v c tab) d
          (select-IsDistinct v c tab.selected h) in
      (apart, as_chosen ∙ ap (last_choice es d) (checked-select v c d tab.selected))

  -- The hook called for another selection either goes on as it is, or ends its effect and runs it.
  call_hook-cases :
      (cs ds : List Channel) (h : Hook)
      → is_empty pid ≡ false
      → let after = call_hook encode env (props pid cs) (props pid ds) h in
        ((ds ≡ cs) × (after ≡ h))
        ⊎ ((ds ≢ cs) × (after ≡ run_effect encode env (props pid ds) (clean_up h)))
  unfolding call_hook end_effect props
  call_hook-cases cs ds h named =
      let p = effect_key (props pid cs) in
      let q = effect_key (props pid ds) in
      elim (Bool-cases (text_eq p q)) [
        | inl same ↦
            let agree = (text_eq_iff p q).0 same in
            inl (sym (effect_key-injective pid cs ds agree), rw same refl)
        | inr other ↦
            let apart : ds ≢ cs =
              λ e. cc (other, (text_eq_iff p q).1 (ap (λ z. effect_key (props pid z)) (sym e))) in
            inr (apart, rw (other, named) refl)
      ]

  -- For a project, setting a box leaves the hook as it is where the selection stays what it is,
  -- order included; where it changes, the effect ends and runs again on the names selected now.
  pub on_checked-hook :
      (v : Bool) (c : Channel) (tab : ChannelsTab)
      → is_empty pid ≡ false
      → let next = select v c tab.selected in
        let after = on_checked encode env pid v c tab in
        (after.selected ≡ next)
        × (((next ≡ tab.selected) × (after.hook ≡ tab.hook))
            ⊎ ((next ≢ tab.selected)
                × (after.hook ≡ run_effect encode env (props pid next) (clean_up tab.hook))))
  unfolding on_checked
  on_checked-hook v c tab named =
      (refl, call_hook-cases tab.selected (select v c tab.selected) tab.hook named)
