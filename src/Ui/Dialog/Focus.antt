-- ===== src/Ui/Dialog/Focus.antt =====
-- The keys of an open dialog of web/src/components/ui/Modal.tsx. The elements of the page are numbered;
-- what the browser does with a key that the handler leaves alone is an argument of the theorem.
use daili_usage_keeper_north.Base.{
  ℕ, zero, suc, ◌-◌, ◌≡◌, ◌≢◌, refl, Bool, true, false, ◌||◌, Option, none, some, List, [], ◌∷◌,
  if◌then◌else◌, ◌==◌, length, get_elem?, arith, inl, inr, ◌⊎◌, ap,
}
use daili_usage_keeper_north.Store.{is_id}

pub data DialogKey : Type 0 where
  escape : DialogKey
  tab : (shift_key : Bool) → DialogKey
  other_key : DialogKey

-- `modalRef.current`, what `getFocusableElements` finds in it, and `document.activeElement`.
pub record FocusPage : Type 0 where
  pub modal : ℕ
  pub focusable : List ℕ
  pub active : Option ℕ

-- What the handler does: `preventDefault`, `handleClose`, and the element that it focuses.
pub record KeyResult : Type 0 where
  pub prevented : Bool
  pub closes : Bool
  pub focused : Option ℕ

abbrev pub ignored : KeyResult
ignored = record { prevented = false; closes = false; focused = none }

abbrev pub focus_on : ℕ → KeyResult
focus_on e = record { prevented = true; closes = false; focused = some e }

-- `focusableElements[focusableElements.length - 1]`
abbrev pub last_element : ℕ → List ℕ → ℕ
last_element e [] = e
last_element e (f ∷ es) = last_element f es

unfoldable pub tab_among : Bool → ℕ → Option ℕ → List ℕ → KeyResult
tab_among shift_key modal active [] = focus_on modal
tab_among true modal active (first ∷ es) =
    if is_id active first || is_id active modal then focus_on (last_element first es) else ignored
tab_among false modal active (first ∷ es) =
    if is_id active (last_element first es) then focus_on first else ignored

unfoldable pub handle_dialog_key : (close_disabled : Bool) → DialogKey → FocusPage → KeyResult
unfolding tab_among
handle_dialog_key close_disabled escape p =
    if close_disabled then ignored else record { prevented = true; closes = true; focused = none }
handle_dialog_key close_disabled (tab shift_key) p =
    tab_among shift_key p.modal p.active p.focusable
handle_dialog_key close_disabled other_key p = ignored

-- The focus after a key; `by_browser` is where the browser moves it by itself.
abbrev pub focus_after : (by_browser : Option ℕ) → KeyResult → Option ℕ
focus_after by_browser r = if r.prevented then r.focused else by_browser

-- The place after, or before, the place `i` among `n`, round and round.
abbrev pub place_after : Bool → ℕ → ℕ → ℕ
place_after false n i = if suc i == n then 0 else suc i
place_after true n i = if i == 0 then n - 1 else i - 1

-- The browser moves the focus along the elements that can have it.
abbrev pub FollowsOrder : (Bool → ℕ → Option ℕ) → List ℕ → Type 0
FollowsOrder by_browser es =
    (i x y : ℕ)
    → get_elem? es i ≡ some x
    → get_elem? es (suc i) ≡ some y
    → (by_browser false x ≡ some y) × (by_browser true y ≡ some x)

-- No element stands at two places.
abbrev pub IsDistinct : List ℕ → Type 0
IsDistinct es = (i j x : ℕ) → get_elem? es i ≡ some x → get_elem? es j ≡ some x → i ≡ j

get_elem?-last_element :
    (e : ℕ) (es : List ℕ) → get_elem? (e ∷ es) (length es) ≡ some (last_element e es)
get_elem?-last_element e [] = refl
get_elem?-last_element e (f ∷ es) = get_elem?-last_element f es

next_elem :
    (es : List ℕ) (i x : ℕ)
    → get_elem? es i ≡ some x
    → (suc i ≡ length es) ⊎ ((z : ℕ) × (get_elem? es (suc i) ≡ some z) × (suc i ≢ length es))
next_elem [] i x h = absurd (cc)
next_elem (e ∷ []) zero x h = inl refl
next_elem (e ∷ f ∷ es) zero x h = inr (f, refl, omega arith)
next_elem (e ∷ es) (suc i) x h = elim (next_elem es i x h) [
  | inl end ↦ inl (ap suc end)
  | inr (z, found, inner) ↦ inr (z, found, omega arith)
]

previous_elem :
    (es : List ℕ) (i x : ℕ) → get_elem? es (suc i) ≡ some x → (w : ℕ) × (get_elem? es i ≡ some w)
previous_elem [] i x h = absurd (cc)
previous_elem (e ∷ es) zero x h = (e, refl)
previous_elem (e ∷ es) (suc i) x h = previous_elem es i x h

module _ (close_disabled : Bool) (modal e : ℕ) (es : List ℕ) (by_browser : Bool → ℕ → Option ℕ)
    (follows : FollowsOrder by_browser (e ∷ es)) (distinct : IsDistinct (e ∷ es))
    (apart : (j : ℕ) → get_elem? (e ∷ es) j ≢ some modal) where
  -- The focus after Tab, which was on the element x.
  abbrev pub after_tab : Bool → ℕ → Option ℕ
  after_tab shift_key x = focus_after (by_browser shift_key x) (
      handle_dialog_key close_disabled (tab shift_key)
        (record { modal = modal; focusable = e ∷ es; active = some x }))

  tab-forward :
      (i x : ℕ)
      → get_elem? (e ∷ es) i ≡ some x
      → after_tab false x ≡ get_elem? (e ∷ es) (place_after false (suc (length es)) i)
  unfolding handle_dialog_key
  tab-forward i x h = elim (next_elem (e ∷ es) i x h) [
    | inl end ↦ ground (arith, get_elem?-last_element e es)
    | inr (z, found, inner) ↦
        let before : x ≢ last_element e es = λ same.
          inner (ap suc (distinct i (length es) x h (rw same (get_elem?-last_element e es)))) in
        ground (arith, follows i x z h found)
  ]

  tab-backward :
      (i x : ℕ)
      → get_elem? (e ∷ es) i ≡ some x
      → after_tab true x ≡ get_elem? (e ∷ es) (place_after true (suc (length es)) i)
  unfolding handle_dialog_key
  tab-backward zero x h = ground (arith, get_elem?-last_element e es)
  tab-backward (suc i) x h =
      let (w, found) = previous_elem (e ∷ es) i x h in
      ground (arith, follows i w x found h, distinct 0 (suc i) e, apart (suc i))

  -- While the focus is on an element of the dialog, Tab moves it to the next one, after the last to the
  -- first, and with Shift to the one before, before the first to the last: it never leaves the dialog,
  -- provided the browser itself moves it along the elements, these are distinct, and the dialog's own
  -- box is none of them.
  pub after_tab-cycles :
      (shift_key : Bool) (i x : ℕ)
      → get_elem? (e ∷ es) i ≡ some x
      → after_tab shift_key x ≡ get_elem? (e ∷ es) (place_after shift_key (suc (length es)) i)
  after_tab-cycles false i x h = tab-forward i x h
  after_tab-cycles true i x h = tab-backward i x h
