-- ===== src/Lib.antt =====
-- Time recording: the core of a server with which people record their working time.
--
-- The program books hours on days and projects, measures them with a clock, knows the public holidays
-- of seventeen countries, and reads recorded days against the Working Hours Act. From the weeks people
-- plan, their days away and the holidays it says what a day asks of somebody, and keeps the balance of
-- what was booked against it. What it stores lies behind repositories; the in-memory ones of
-- internal/infrastructure/persistence/memory are modelled, which hold to the contract of those over
-- SQL.
--
-- Calendar    internal/domain/model/date.go, and what the code uses of Go's `time`: a day is a number
--             of days from 0001-01-01, a moment is seconds from there with the offset of its location.
--             The years are those from 1 on. Calendar/Range and Calendar/Rising are the days of a range.
-- Holiday     internal/domain/model/holiday_model.go and the files holiday_*.go of the countries:
--             `easterSunday` (Holiday/Easter, against Holiday/Computus, a definition of Easter of its
--             own), `holidayRule`, `holidayRules.year` and the days of a year (Holiday/Rules), the
--             countries (Holiday/Countries), places and choices (Holiday/Place), `HolidaysIn` and
--             `HolidaysBetween` (Holiday).
-- Workday     internal/domain/model/workday_model.go: `shiftsOf`, `WorkingTimeNotices`. Workday/Record
--             is `Record` and `Remove` of internal/application/v1/service/workday_application_service.go
--             over memory/workday.go.
-- User        the settings of an account that the modelled code reads: internal/domain/model/user_model.go.
-- Schedule    weeks and plans: internal/domain/model/workweek_model.go, memory/workschedule.go, and
--             workschedule_application_service.go (Schedule/Service).
-- Absence     days away: absence_model.go, memory/absence.go, and absence_application_service.go with
--             service/holiday.go (Absence/Service).
-- Vacation    leave: vacation_model.go, memory/vacation.go, and vacation_application_service.go
--             (Vacation/Service).
-- Overtime    internal/application/v1/service/overtime_application_service.go: what a day asks of
--             somebody (`dayRules`, from Holiday, Schedule and Absence), `Balance`, `Days`, the reminder
--             and the notices (Overtime/Notices), and what others see (Overtime/Discreet).
-- Store       the generic `store` of memory/memory.go; Store/Members counts what it holds.
-- Timesheet   entries, revisions and filters: internal/domain/model/timesheet_model.go,
--             revision_model.go, internal/domain/repository/timesheet_repository.go and
--             memory/timesheet.go; `FirstDay` and `HoursByProject` in Timesheet/Summary.
-- Project     whose project is whose, and archiving.
-- Booking     `CreateTimesheet`, `UpdateTimesheet`, `DeleteTimesheet` and their checks, of
--             internal/application/v1/service/timesheet_application_service.go, and `CopyWeek` of
--             timesheet_week_copy.go. Booking/Transfer and Booking/Report are
--             internal/domain/service/timesheet_service.go with `ProjectScope` of visibility.go.
-- Timer       internal/domain/model/timer_model.go, timer_application_service.go and
--             `TimerRepository` of memory/memory.go: a stopped clock is booked through Booking.
-- Roles       internal/domain/model/permission_model.go and role_model.go, `RoleRepository` of
--             memory/memory.go, role_application_service.go and `AssignRoleToUser` of
--             internal/domain/service/user_service.go (Roles/Service).
-- Pending     the first halves of ceremonies: internal/application/v1/service/pending.go.
-- Errors      the kinds of internal/support/apperror/apperror.go, as results.
-- Float       Go's float64 as a parameter: hours are a type with the operations that the code uses.
-- Text        what the code uses of Go's `strings`.
-- Base        lists, options, integers, tests, sorting, and what the modules share. Base/Keyed is a list
--             that holds one value for a person and a day, which plans, absences and leave are kept in.
--
-- State is passed explicitly, an operation that fails returns an error and no state, and the time is
-- an argument, as is the day that is today. An operation is one step: each repository call holds its
-- lock, and two calls of one operation are not interleaved with those of another. `uint` wraps around
-- at 2 ^ 64. The order in which Go walks a map is a parameter, of which only is known that it gives the
-- same days.
--
-- A moment has the one offset of its location. Where the source asks a location for its midnight,
-- `startOfDay` of the bookings among it, the offset at midnight is taken to be the moment's, which it is
-- but on a day on which the clocks change. Before the year 1 no holiday is looked for; none of the year
-- 0 would be kept in the year 1.
--
-- Loops that look for a day take steps: six to meet a weekday, since seven days hold each once, and
-- three for each day up to the latest that is taken, and two, to meet a free weekday, since past that
-- day only a weekend is in the way. The loop over the years of a range has one round for each year,
-- that over the days of a range one for each day, and the reminder looks back fourteen days.
--
-- Not modelled: the interfaces over HTTP and on the command line, SQL and its migrations, sign-in and
-- sessions, the directory, settings, spreadsheets, statistics and metrics, cron expressions; of the
-- modelled services, what only decorates a result for a screen. `strings.ToLower` with
-- `strings.Contains`, and `strings.EqualFold`, are parameters.
pub mod Base
pub mod Calendar
pub mod Errors
pub mod Float
pub mod Text
pub mod User
pub mod Store
pub mod Timesheet
pub mod Project
pub mod Booking
pub mod Holiday
pub mod Workday
pub mod Timer
pub mod Schedule
pub mod Absence
pub mod Vacation
pub mod Overtime
pub mod Roles
pub mod Pending
