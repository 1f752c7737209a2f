-- ===== src/Client/Download.antt =====
-- master_client.go: `downloadSourceVideoAttempt` and the transfers around it. The file at the output path is
-- `none` where there is none. What the environment does in an attempt is a `Weather`.
pub mod Rest
pub mod Stream
pub mod Resume
pub mod Calm
pub mod Progress
use dark_stream.Client.Retry.{
  never, status_error, is_permanent_http_error, retry, failure, Failure, Report,
}
use dark_stream.Server.Video.{Reply}
use dark_stream.Server.Video.Ranges.{open_header}
use dark_stream.Common.{
  ℕ, take, some, not, none, ltb, length, if◌then◌else◌, false, [], Option, List, Bool, ◌==◌, ◌++◌,
  ◌+◌, ◌&&◌,
}
use mathlib.Core.Option

-- `prepares`: the transport is secure, the URL can be built and the directory made. `answer` is the master's answer to
-- a Range header, empty where none is sent, or `none` if the request fails. `arrives`: how many bytes of the body are read
-- and written before an error, `none` if all are.
pub record Weather : Type 0 where
  pub prepares : Bool
  pub answer : List ℕ → Option Reply
  pub opens : Bool
  pub arrives : Option ℕ
  pub removes : Bool

-- The size of the file that is there already, if downloads are resumed.
abbrev pub start_offset : Bool → Option (List ℕ) → ℕ
start_offset resume none = 0
start_offset resume (some file) = if resume then length file else 0

abbrev pub range_header : ℕ → List ℕ
range_header offset = if offset == 0 then [] else open_header offset

abbrev pub remove_if : Bool → Option (List ℕ) → Option (List ℕ)
remove_if removed disk = if removed then none else disk

abbrev pub content_of : Option (List ℕ) → List ℕ
content_of none = []
content_of (some file) = file

-- How a stream ends: at the end of the body, or with an error.
abbrev pub received : Option ℕ → List ℕ → List ℕ
received none body = body
received (some n) body = take n body

-- The declared size of the whole file differs from what was written.
abbrev pub is_wrong_size : Option ℕ → ℕ → Bool
is_wrong_size none size = false
is_wrong_size (some expected) size = not (expected == size)

abbrev pub discard : Bool → Weather → List ℕ → Option Failure × Option (List ℕ)
discard resume w file = (some failure, remove_if (not resume && w.removes) (some file))

-- What is known of the stream once the file is written to.
abbrev pub check_stream :
    Bool → Weather → Option ℕ → Option ℕ → List ℕ → Option Failure × Option (List ℕ)
check_stream resume w (some _) expected file = discard resume w file
check_stream resume w none expected file =
    if is_wrong_size expected (length file) then discard resume w file else (none, some file)

-- `kept` is what the file begins with: nothing, if it is created anew.
abbrev pub write_stream :
    Bool → Weather → List ℕ → Option ℕ → List ℕ → Option (List ℕ) → Option Failure × Option (List ℕ)
write_stream resume w kept expected body disk =
    if w.opens
    then check_stream resume w w.arrives expected (kept ++ received w.arrives body)
    else (some failure, disk)

-- The answer's status decides.
unfoldable pub after_answer :
    Bool → Weather → ℕ → Option Reply → Option (List ℕ) → Option Failure × Option (List ℕ)
after_answer resume w offset none disk = (some failure, disk)
after_answer resume w offset (some r) disk =
    if r.code == 206 && ltb 0 offset
    then write_stream resume w (content_of disk) (Option.map (λ n. offset + n) r.content_length)
        r.body disk
    else if r.code == 200
    then write_stream resume w [] r.content_length r.body disk
    else if r.code == 416 && ltb 0 offset
    then (some failure, remove_if w.removes disk)
    else (some (status_error r.code), disk)

unfoldable pub download_attempt :
    Bool → Weather → Option (List ℕ) → Option Failure × Option (List ℕ)
download_attempt resume w disk =
    let offset = start_offset resume disk in
    if w.prepares
    then after_answer resume w offset (w.answer (range_header offset)) disk
    else (some failure, disk)

-- `weather k` is that of attempt `k`.
unfoldable pub download_source_video :
    Bool → (ℕ → Bool) → (ℕ → Weather) → Option (List ℕ) → Report (Option (List ℕ))
download_source_video resume cancels weather =
    retry is_permanent_http_error cancels (λ k. download_attempt resume (weather k))

-- This one does not look at the status of an error.
unfoldable pub download_source_video_with_progress :
    Bool → (ℕ → Bool) → (ℕ → Weather) → Option (List ℕ) → Report (Option (List ℕ))
download_source_video_with_progress resume cancels weather =
    retry never cancels (λ k. download_attempt resume (weather k))
