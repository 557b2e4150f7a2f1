-- ===== src/Timesheet/Filter/Laws.antt =====
-- What a filter selects, and what a page holds.
use go_time_recording.Base.{
  ℕ, zero, suc, ◌+◌, ◌-◌, ◌≤◌, ◌<◌, ◌≡◌, ap, refl, arith, Bool, true, false, not, ◌&&◌, ◌||◌,
  Option, none, some, List, [], ◌∷◌, String, leb, ◌==◌, str_eq, if◌then◌else◌, length, take, drop,
}
use go_time_recording.Calendar.{Day, Moment, calendar_day, midnight}
use go_time_recording.Store.{uint_mod}
use go_time_recording.Timesheet.{Timesheet, has_project}
use go_time_recording.Timesheet.Filter.{TimesheetFilter, over_whole_days, matches_filter, page}

abbrev pub is_on : Option ℕ → ℕ → Bool
is_on none id = false
is_on (some p) id = p == id

abbrev pub starts_by : Option Moment → Day → Bool
starts_by none day = true
starts_by (some start) day = leb (calendar_day start) day

abbrev pub ends_from : Option Moment → Day → Bool
ends_from none day = true
ends_from (some end) day = leb day (calendar_day end)

abbrev pub says_text : (String → String → Bool) → Option String → String → Bool
says_text found none text = false
says_text found (some description) text = found description text

-- A filter over whole days selects an entry stored at midnight UTC of a day exactly if every
-- restriction it makes holds: the user, the project or none, the text, and the day lies from the
-- calendar day of the range's start to that of its end, each read in the range's own location.
pub matches_filter-over_whole_days :
    {H : Type 0} (found : String → String → Bool) (ts : Timesheet H) (f : TimesheetFilter)
    (day : Day)
    → ts.date ≡ midnight day
    → matches_filter found ts (over_whole_days f) ≡ (
        ((f.user_id == 0) || (ts.user_id == f.user_id))
        && (((f.project_id == 0) || is_on ts.project_id f.project_id)
            && ((not f.without_project || not (has_project ts))
                && (starts_by f.start_date day
                    && (ends_from f.end_date day
                        && (str_eq f.search "" || says_text found ts.description f.search))))))
unfolding matches_filter over_whole_days
matches_filter-over_whole_days found ts f day e = ground (arith, e)

take_all : {A : Type 0} (n : ℕ) (xs : List A) → length xs ≤ n → take n xs ≡ xs
take_all zero [] h = refl
take_all zero (x ∷ xs) h = absurd (omega arith)
take_all (suc n) [] h = refl
take_all (suc n) (x ∷ xs) h = ap (◌∷◌ x) (take_all n xs (omega arith))

length-drop : {A : Type 0} (n : ℕ) (xs : List A) → length (drop n xs) ≡ length xs - n
length-drop zero xs = omega arith
length-drop (suc n) [] = omega arith
length-drop (suc n) (x ∷ xs) = omega (arith, length-drop n xs)

drop_all : {A : Type 0} (n : ℕ) (xs : List A) → length xs ≤ n → drop n xs ≡ []
drop_all zero [] h = refl
drop_all zero (x ∷ xs) h = absurd (omega arith)
drop_all (suc n) [] h = refl
drop_all (suc n) (x ∷ xs) h = drop_all n xs (omega arith)

-- A page is the items past the offset, up to the limit, and every item where no limit is set; an
-- offset past the end gives an empty page. The sum of offset and limit fits a `uint`.
pub page-take-drop :
    {A : Type 0} (items : List A) (limit offset : ℕ)
    → offset + limit < uint_mod
    → page items limit offset ≡ some (if limit == 0 then items else take limit (drop offset items))
unfolding page
page-take-drop {A} items limit offset h =
    let rest : List A = drop offset items in
    ground (
      arith,
      length-drop offset items,
      λ (past : length items ≤ offset). drop_all offset items past,
      λ (short : length rest ≤ limit). take_all limit rest short,
      take_all (length items - offset) rest,
    )

-- Where that sum wraps around and the offset lies within the items, a page ends before it starts,
-- and the slice panics.
pub page-none :
    {A : Type 0} (items : List A) (limit offset : ℕ)
    → limit < uint_mod
    → offset < length items
    → length items < uint_mod
    → uint_mod ≤ offset + limit
    → page items limit offset ≡ none
unfolding page
page-none items limit offset l o n h = ground arith
