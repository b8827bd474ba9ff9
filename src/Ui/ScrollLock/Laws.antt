-- ===== src/Ui/ScrollLock/Laws.antt =====
-- The last dialog that closes gives the page back as the first one found it.
use daili_usage_keeper_north.Base.{
  ℕ, ◌+◌, ◌-◌, ◌<◌, ◌≡◌, refl, ap, ap₂, sym, ◌∙◌, false, Option, none, some, is_some, if◌then◌else◌,
  ◌==◌, arith,
}
use daili_usage_keeper_north.Ui.ScrollLock.{
  Page, Snapshot, Locks, take_snapshot, fixed_page, lock_scroll, restored_page, unlock_scroll,
  scrolled, content_top,
}

-- The states while dialogs are open; the first of them opened on the page `p`.
pub data Open (p : Page) : Locks → Type 0 where
  first :
      (s : Snapshot)
      → p.body_locked ≡ false
      → p.html_locked ≡ false
      → Open p (lock_scroll (record { active_modal_count = 0; snapshot = s; page = p }))
  another : {l : Locks} → Open p l → Open p (lock_scroll l)
  scrolls : {l : Locks} (x y left top : ℕ) → Open p l → Open p (scrolled x y left top l)
  closes : {l : Locks} → Open p l → 1 < l.active_modal_count → Open p (unlock_scroll l)

-- While a dialog is open the snapshot is that of the page `p`, and the page stands still.
pub record IsHeld (p : Page) (l : Locks) : Type 0 where
  pub counted : 0 < l.active_modal_count
  pub kept : l.snapshot ≡ take_snapshot p
  pub still : l.page.body ≡ (fixed_page p).body
  pub hidden : l.page.html_overflow ≡ "hidden"
  pub content_kept : is_some l.page.content ≡ is_some p.content
  pub unlocked : (p.body_locked ≡ false) × (p.html_locked ≡ false)

more :
    (l : Locks)
    → 0 < l.active_modal_count
    → lock_scroll l ≡ record l { active_modal_count = l.active_modal_count + 1 }
unfolding lock_scroll
more l h = let e : (l.active_modal_count == 0) ≡ false = ground arith in rw e refl

fewer :
    (l : Locks)
    → 1 < l.active_modal_count
    → unlock_scroll l ≡ record l { active_modal_count = l.active_modal_count - 1 }
unfolding unlock_scroll
fewer l h = let e : (l.active_modal_count - 1 == 0) ≡ false = ground arith in rw e refl

same_presence :
    (o : Option (ℕ × ℕ)) (position : ℕ × ℕ)
    → is_some (if is_some o then some position else none) ≡ is_some o
same_presence none position = refl
same_presence (some n) position = refl

Open-IsHeld : {p : Page} {l : Locks} → Open p l → IsHeld p l
unfolding lock_scroll take_snapshot fixed_page
Open-IsHeld (first s h k) = record {
  counted = omega arith;
  kept = refl;
  still = refl;
  hidden = refl;
  content_kept = refl;
  unlocked = (h, k);
}
Open-IsHeld (another {l} o) =
    let c = Open-IsHeld o in
    rw (more l c.counted) record {
      counted = omega arith;
      kept = c.kept;
      still = c.still;
      hidden = c.hidden;
      content_kept = c.content_kept;
      unlocked = c.unlocked;
    }
Open-IsHeld (scrolls {l} x y left top o) =
    let c = Open-IsHeld o in
    record {
      counted = c.counted;
      kept = c.kept;
      still = c.still;
      hidden = c.hidden;
      content_kept = same_presence l.page.content (left, top) ∙ c.content_kept;
      unlocked = c.unlocked;
    }
Open-IsHeld (closes {l} o h) =
    let c = Open-IsHeld o in
    rw (fewer l h) record {
      counted = omega arith;
      kept = c.kept;
      still = c.still;
      hidden = c.hidden;
      content_kept = c.content_kept;
      unlocked = c.unlocked;
    }

-- The page at its left edge, as `scrollTo` with `left: 0` leaves it.
abbrev pub at_left_edge : Option (ℕ × ℕ) → Option (ℕ × ℕ)
at_left_edge none = none
at_left_edge (some (left, top)) = some (0, top)

abbrev pub page_at_left : Page → Page
page_at_left p = record p { scroll_x = 0; content = at_left_edge p.content }

content_back :
    (o now : Option (ℕ × ℕ))
    → is_some now ≡ is_some o
    → (if is_some o then some (0, content_top o) else now) ≡ at_left_edge o
content_back (some (left, top)) now h = refl
content_back none none h = refl
content_back none (some n) h = ground arith

restored_page-take_snapshot :
    (p now : Page)
    → is_some now.content ≡ is_some p.content
    → p.body_locked ≡ false
    → p.html_locked ≡ false
    → restored_page (take_snapshot p) now ≡ page_at_left p
unfolding restored_page take_snapshot
restored_page-take_snapshot p now h k m =
    rw (content_back p.content now.content h)
      (ap₂ (λ x y. record (page_at_left p) { body_locked = x; html_locked = y }) (sym k) (sym m))

last_page :
    (l : Locks)
    → l.active_modal_count ≡ 1
    → (unlock_scroll l).page ≡ restored_page l.snapshot l.page
unfolding unlock_scroll
last_page l h = rw h refl

last_count : (l : Locks) → l.active_modal_count ≡ 1 → (unlock_scroll l).active_modal_count ≡ 0
unfolding unlock_scroll
last_count l h = rw h refl

-- However many dialogs open and close above the first, and however the page is scrolled meanwhile, the
-- styles of the lock stay until the last one closes; then the page has the styles and the vertical
-- scroll positions that the first one found, and it and its content are scrolled to their left edges,
-- wherever they stood before.
pub unlock_scroll-last :
    {p : Page} {l : Locks}
    → Open p l
    → ((l.page.body ≡ (fixed_page p).body) × (l.page.html_overflow ≡ "hidden"))
      × (l.active_modal_count ≡ 1 → (unlock_scroll l).page ≡ page_at_left p)
      × (l.active_modal_count ≡ 1 → (unlock_scroll l).active_modal_count ≡ 0)
unlock_scroll-last {p} {l} o =
    let c = Open-IsHeld o in
    (
      (c.still, c.hidden),
      (λ h.
          last_page l h
          ∙ ap (λ s. restored_page s l.page) c.kept
          ∙ restored_page-take_snapshot p l.page c.content_kept c.unlocked.0 c.unlocked.1),
      (λ h. last_count l h),
    )
