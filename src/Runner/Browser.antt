-- ===== src/Runner/Browser.antt =====
-- runner/runner.go, `handleBrowser`.
use vectrify_agent_runner.Base.{
  Bool, true, false, not, Option, none, some, List, [], ◌∷◌, ◌++◌, map, Text, codes, text_eq,
  if◌then◌else◌, newline,
}
use vectrify_agent_runner.Protocol.{
  RawCommand, Message, result_msg, stream_msg, str, get_bool, get_int,
}
use vectrify_agent_runner.Runner.{
  Answer, data_of, error_of, BrowserCall, launch_session, goto_url, click, fill, wait_for_selector,
  screenshot, get_text, get_content, evaluate, close_session, Executors, Runner,
}
use vectrify_agent_runner.Runner.Timeouts.{clamp_timeout}

unfoldable pub failed : Text → Text → Message
failed id error = result_msg id false [] error

unfoldable pub succeeded : Text → Text → Message
succeeded id text = result_msg id true text []

-- What an action comes to before the executor is called.
pub data Planned : Type 0 where
  call : BrowserCall → Planned
  missing : Text → Planned
  unknown : Planned

unfoldable pub required : Text → Text → BrowserCall → Planned
required value error c = if text_eq value [] then missing error else call c

-- The switch on the action.
unfoldable pub plan : RawCommand → Text → Planned
unfolding required
plan raw action =
    let selector = str raw (codes "selector") in
    let timeout = get_int raw (codes "timeout_seconds") in
    if text_eq action (codes "launch")
    then call launch_session
    else if text_eq action (codes "goto")
    then required (str raw (codes "url")) (codes "url is required for goto")
        (goto_url (str raw (codes "url")) timeout)
    else if text_eq action (codes "click")
    then required selector (codes "selector is required for click") (click selector timeout)
    else if text_eq action (codes "fill")
    then required selector (codes "selector is required for fill")
        (fill selector (str raw (codes "value")) timeout)
    else if text_eq action (codes "wait_for_selector")
    then required selector (codes "selector is required for wait_for_selector")
        (wait_for_selector selector (str raw (codes "state")) timeout)
    else if text_eq action (codes "screenshot")
    then call (screenshot (str raw (codes "path")) (get_bool raw (codes "full_page")))
    else if text_eq action (codes "get_text")
    then call (get_text selector)
    else if text_eq action (codes "content")
    then call get_content
    else if text_eq action (codes "evaluate")
    then required (str raw (codes "script")) (codes "script is required for evaluate")
        (evaluate (str raw (codes "script")))
    else if text_eq action (codes "close")
    then call close_session
    else unknown

-- The data of a call that succeeded with `text`.
unfoldable pub described : (Text → Text) → Text → BrowserCall → Text → Text
described quoted session launch_session text =
    codes "browser session " ++ quoted session ++ codes " launched"
described quoted session (goto_url url timeout) text = codes "navigated to " ++ url
described quoted session (click selector timeout) text = codes "clicked " ++ selector
described quoted session (fill selector value timeout) text = codes "filled " ++ selector
described quoted session (wait_for_selector selector state timeout) text =
    codes "selector " ++ selector ++ codes " reached state"
described quoted session (screenshot path full_page) text = codes "screenshot saved: " ++ path
described quoted session (get_text selector) text = text
described quoted session get_content text = text
described quoted session (evaluate script) text = text
described quoted session close_session text =
    codes "browser session " ++ quoted session ++ codes " closed"

-- Whether the data is for a program to read, and keeps free of the log of the installation.
unfoldable pub is_parsed : BrowserCall → Bool
is_parsed (get_text selector) = true
is_parsed get_content = true
is_parsed (evaluate script) = true
is_parsed c = false

unfoldable pub concat_all : List Text → Text
concat_all [] = []
concat_all (t ∷ ts) = t ++ concat_all ts

unfoldable pub with_log : Text → Text → Text
with_log log text = if text_eq log [] then text else log ++ newline ∷ text

unfoldable pub answered : Executors → Text → Text → Text → BrowserCall → Answer → Message
unfolding described is_parsed with_log failed succeeded
answered x id session log c (error_of e) = failed id e
answered x id session log c (data_of text) =
    let data_text = described x.quoted session c text in
    succeeded id (if is_parsed c then data_text else with_log log data_text)

-- Closing a session is not an error, whatever becomes of it.
unfoldable pub close_answer : BrowserCall → Answer → Answer
close_answer close_session a = data_of []
close_answer c a = a

unfoldable pub perform : Executors → Text → Text → Text → Text → Planned → Message
unfolding answered close_answer failed
perform x id session action log unknown =
    failed id (codes "unknown browser action: " ++ x.quoted action)
perform x id session action log (missing error) = failed id error
perform x id session action log (call c) =
    answered x id session log c (close_answer c (x.browser session c))

unfoldable pub after_install : Executors → Text → RawCommand → Text → Option Text → Message
unfolding perform plan with_log failed
after_install x id raw log (some error) =
    failed id (with_log log (codes "browser driver unavailable: " ++ error))
after_install x id raw log none =
    let session = str raw (codes "session_id") in
    let action = str raw (codes "action") in
    if text_eq session []
    then failed id (codes "session_id is required")
    else perform x id session action log (plan (clamp_timeout raw) action)

unfoldable pub progress_msgs : Text → List Text → List Message
progress_msgs id = map (stream_msg id (codes "stdout"))

abbrev pub browser_gate : Text
browser_gate =
    codes
      "browser commands require allow_shell=true in config.yaml (browser automation shares the shell permission — there is no separate allow_browser setting)"

unfoldable pub handle_browser : Runner → Text → RawCommand → List Message
unfolding after_install progress_msgs failed concat_all
handle_browser r id raw =
    if not r.allow_shell
    then failed id browser_gate ∷ []
    else progress_msgs id r.executors.install.0
      ++ after_install r.executors id raw (concat_all r.executors.install.0) r.executors.install.1
        ∷ []
