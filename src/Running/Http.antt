-- ===== src/Running/Http.antt =====
-- The HTTP operations of subrepos/plano/src/plano/main.py, which run `curl`. `found` is what `which`
-- finds; `json.loads` and `json.dumps` are the parameters `parse_json` and `emit_json`.
use bsord.Base.{
  Bool, true, false, Option, none, some, List, [], ◌∷◌, ◌++◌, Text, str, join_texts, if◌then◌else◌,
}
use bsord.World.{Call, Exception, message, pure, or_raise, assert, ◌>>=◌, ◌>>◌}
use bsord.Environment.{check_program}
use bsord.Files.{make_parent_dir}
use bsord.Running.{System, command_text, no_stream, call, run}

-- The arguments of `_run_curl` that are not always given.
pub record Request : Type 0 where
  pub content : Option Text
  pub content_file : Option Text
  pub content_type : Option Text
  pub output_file : Option Text
  pub insecure : Bool

abbrev pub given : Option Text → (Text → List Text) → List Text
given none f = []
given (some t) f = f t

abbrev pub is_none : Option Text → Bool
is_none none = true
is_none (some t) = false

-- The two assertions of `_run_curl`: the content and a file of content exclude each other.
abbrev pub one_content : Request → Bool
one_content r = elim r.content [ none ↦ true | some content ↦ is_none r.content_file ]

-- `options` of `_run_curl`
unfoldable pub curl_options : Text → Request → List Text
curl_options method r =
    (str "-sf" ∷ str "-X" ∷ method ∷ str "-H" ∷ str "'Expect:'" ∷ [])
    ++ (given r.content (λ content. str "-d" ∷ str "@-" ∷ [])
        ++ (given r.content_file (λ path. str "-d" ∷ (b'@' ∷ path) ∷ [])
            ++ (given r.content_type
                  (λ t. str "-H" ∷ (str "'Content-Type: " ++ (t ++ str "'")) ∷ [])
                ++ (given r.output_file (λ path. str "-o" ∷ path ∷ [])
                    ++ (if r.insecure then str "--insecure" ∷ [] else [])))))

-- `command` of `_run_curl`
unfoldable pub curl_command : Text → Text → Request → Text
unfolding curl_options join_texts
curl_command method url r =
    str "curl " ++ (join_texts (str " ") (curl_options method r) ++ (b' ' ∷ url))

module _ (found : Text → Bool) (sys : System) where
  -- What `_run_curl` does with its command: the output is returned, or goes to a file.
  abbrev pub send : Option Text → Option Text → Text → Call (Option Text)
  send none content command = call sys (command_text command) content false false
  send (some output_file) content command = do
    make_parent_dir output_file true
    run sys (command_text command) no_stream no_stream no_stream content no_stream false false true
        false
    pure none

  -- `_run_curl`
  unfoldable pub run_curl : Text → Text → Request → Call (Option Text)
  unfolding check_program curl_command call run make_parent_dir
  run_curl method url r = do
    check_program found (str "curl") none
    assert (one_content r) (message [] [])
    send r.output_file r.content (curl_command method url r)

  -- `http_get`
  unfoldable pub http_get : Text → Option Text → Bool → Call (Option Text)
  unfolding run_curl
  http_get url output_file insecure = run_curl (str "GET") url (record {
    content = none;
    content_file = none;
    content_type = none;
    output_file = output_file;
    insecure = insecure;
  })

  -- `http_put`
  unfoldable pub http_put : Text → Text → Option Text → Bool → Call (Unit {0})
  unfolding run_curl
  http_put url content content_type insecure =
      run_curl (str "PUT") url (record {
        content = some content;
        content_file = none;
        content_type = content_type;
        output_file = none;
        insecure = insecure;
      })
      >> pure tt

  -- `http_put_file`
  unfoldable pub http_put_file : Text → Text → Option Text → Bool → Call (Unit {0})
  unfolding run_curl
  http_put_file url content_file content_type insecure =
      run_curl (str "PUT") url (record {
        content = none;
        content_file = some content_file;
        content_type = content_type;
        output_file = none;
        insecure = insecure;
      })
      >> pure tt

  -- `http_post`
  unfoldable pub http_post : Text → Text → Option Text → Option Text → Bool → Call (Option Text)
  unfolding run_curl
  http_post url content content_type output_file insecure = run_curl (str "POST") url (record {
    content = some content;
    content_file = none;
    content_type = content_type;
    output_file = output_file;
    insecure = insecure;
  })

  -- `http_post_file`
  unfoldable pub http_post_file :
      Text → Text → Option Text → Option Text → Bool → Call (Option Text)
  unfolding run_curl
  http_post_file url content_file content_type output_file insecure =
      run_curl (str "POST") url (record {
        content = none;
        content_file = some content_file;
        content_type = content_type;
        output_file = output_file;
        insecure = insecure;
      })

  module _ {Json : Type 0} (parse_json : Text → Option Json) (emit_json : Json → Text) where
    -- A text that is parsed; the text is there, since no output file was given.
    abbrev pub parsed : Option Text → Call Json
    parsed none = or_raise none Exception.type_error
    parsed (some text) = or_raise (parse_json text) Exception.value_error

    -- `http_get_json`
    unfoldable pub http_get_json : Text → Bool → Call Json
    unfolding http_get
    http_get_json url insecure = http_get url none insecure >>= parsed

    -- `http_put_json`
    unfoldable pub http_put_json : Text → Json → Bool → Call (Unit {0})
    unfolding http_put
    http_put_json url json insecure =
        http_put url (emit_json json) (some (str "application/json")) insecure

    -- `http_post_json`
    unfoldable pub http_post_json : Text → Json → Bool → Call Json
    unfolding http_post
    http_post_json url json insecure =
        http_post url (emit_json json) (some (str "application/json")) none insecure >>= parsed
