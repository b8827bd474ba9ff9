-- ===== src/Ui/ScrollLock.antt =====
-- `lockScroll` and `unlockScroll` of web/src/components/ui/Modal.tsx: the page stands still while a
-- dialog is open, and several dialogs share one lock. Positions are in whole pixels.
pub mod Laws
use daili_usage_keeper_north.Base.{
  ℕ, ◌+◌, ◌-◌, max, String, Bool, true, false, Option, none, some, if◌then◌else◌, ◌==◌, ◌<>◌,
  decimal, is_some, or_else,
}

-- The styles that are set on `document.body`.
pub record BodyStyle : Type 0 where
  pub position : String
  pub top : String
  pub left : String
  pub right : String
  pub width : String
  pub overflow : String

pub record Page : Type 0 where
  pub body : BodyStyle
  pub html_overflow : String
  -- Whether the body and the document element have `MODAL_LOCK_CLASS`.
  pub body_locked : Bool
  pub html_locked : Bool
  -- `window.scrollX` and `window.scrollY`, and the `scrollLeft` and `scrollTop` of the element
  -- `.content`, if there is one.
  pub scroll_x : ℕ
  pub scroll_y : ℕ
  pub content : Option (ℕ × ℕ)

pub record Snapshot : Type 0 where
  pub scroll_y : ℕ
  pub content_scroll_top : ℕ
  -- Whether there was an element `.content`.
  pub has_content : Bool
  pub body : BodyStyle
  pub html_overflow : String

pub record Locks : Type 0 where
  pub active_modal_count : ℕ
  pub snapshot : Snapshot
  pub page : Page

abbrev pub content_top : Option (ℕ × ℕ) → ℕ
content_top none = 0
content_top (some (left, top)) = top

unfoldable pub take_snapshot : Page → Snapshot
take_snapshot p = record {
  scroll_y = p.scroll_y;
  content_scroll_top = content_top p.content;
  has_content = is_some p.content;
  body = p.body;
  html_overflow = p.html_overflow;
}

unfoldable pub fixed_page : Page → Page
fixed_page p = record p {
  body = record {
    position = "fixed";
    top = "-" <> (decimal p.scroll_y <> "px");
    left = "0";
    right = "0";
    width = "100%";
    overflow = "hidden";
  };
  html_overflow = "hidden";
  body_locked = true;
  html_locked = true;
}

unfoldable pub lock_scroll : Locks → Locks
unfolding take_snapshot fixed_page
lock_scroll l =
    let l' =
      if l.active_modal_count == 0
      then record l { snapshot = take_snapshot l.page; page = fixed_page l.page }
      else l in
    record l' { active_modal_count = l.active_modal_count + 1 }

-- `contentEl.scrollTo(…)`, on the element of the snapshot, with `left: 0`.
abbrev pub scroll_content : Snapshot → Option (ℕ × ℕ) → Option (ℕ × ℕ)
scroll_content s content = if s.has_content then some (0, s.content_scroll_top) else content

unfoldable pub restored_page : Snapshot → Page → Page
restored_page s p = record {
  body = s.body;
  html_overflow = s.html_overflow;
  body_locked = false;
  html_locked = false;
  scroll_x = 0;
  scroll_y = s.scroll_y;
  content = scroll_content s p.content;
}

-- `Math.max(0, activeModalCount - 1)` is the subtraction of natural numbers.
unfoldable pub unlock_scroll : Locks → Locks
unfolding restored_page
unlock_scroll l =
    let l' = record l { active_modal_count = l.active_modal_count - 1 } in
    if l'.active_modal_count == 0
    then record l' {
      page = restored_page l.snapshot l.page;
      snapshot = record l.snapshot { scroll_y = 0; content_scroll_top = 0; has_content = false };
    }
    else l'

-- Something scrolls the page or the content.
abbrev pub scrolled : (x y left top : ℕ) → Locks → Locks
scrolled x y left top l = record l {
  page = record l.page {
    scroll_x = x;
    scroll_y = y;
    content = (if is_some l.page.content then some (left, top) else none);
  };
}
