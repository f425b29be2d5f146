-- ===== src/Message/Runs.antt =====
-- Messages as in the tests of the module, and the theorems at concrete inputs.
use sipr.Common.{ℕ, List, [], ◌∷◌, ◌++◌, some, ◌≡◌, refl, map, filter, arith, All}
use sipr.Common.Texts.{codes, trim, trim_start, trim_end}
use sipr.Message.{request, response, Inbound, ok, err, empty, not_sip, parse, parse_start_line}
use sipr.Message.Headers.{header_values, header, call_id, cseq, names, param_value}
use sipr.Message.Written.{Field, value, IsField}
use sipr.Message.Reads.{message_bytes, parse-message_bytes}
use sipr.Message.Tags.{first_named, semicolons, param_value-semicolons}

abbrev same : List ℕ → List ℕ
same s = s

abbrev options : List ℕ
options = codes "OPTIONS sip:x SIP/2.0"

abbrev fields : List Field
fields =
    record { name = codes "i"; start = codes "y"; folds = [] }
    ∷ record { name = codes "Subject"; start = codes "first"; folds = codes "second" ∷ [] }
    ∷ []

abbrev bytes : List ℕ
bytes = codes "OPTIONS sip:x SIP/2.0\r\ni: y\r\nSubject: first\r\n second\r\n\r\nv=0"

options_kind : parse_start_line options ≡ some (request (codes "OPTIONS"))
unfolding parse_start_line
options_kind = refl

fields-IsField : All IsField fields
unfolding trim trim_start trim_end
fields-IsField = (
  record {
    name_line = record { no_lf = omega arith; no_cr = omega arith; filled = refl };
    apart = refl;
    plain = omega arith;
    name_trimmed = refl;
    no_lf = omega arith;
    no_cr = omega arith;
    pieces = tt;
    trimmed = refl;
  },
  (
    record {
      name_line = record { no_lf = omega arith; no_cr = omega arith; filled = refl };
      apart = refl;
      plain = omega arith;
      name_trimmed = refl;
      no_lf = omega arith;
      no_cr = omega arith;
      pieces = ((record { no_lf = omega arith; no_cr = omega arith; filled = refl }, refl), tt);
      trimmed = refl;
    },
    tt,
  ),
)

parse-message_bytes_example :
    (m : Inbound) × (parse same (message_bytes options fields (codes "v=0")) ≡ ok m)
    × (m.kind ≡ request (codes "OPTIONS"))
    × (m.start ≡ options)
    × (m.body ≡ codes "v=0")
    × ((asked : List ℕ)
        → header_values m asked ≡ map value (filter (λ f. names asked f.name) fields))
unfolding trim_end
parse-message_bytes_example =
    parse-message_bytes same (λ s h. refl) options (request (codes "OPTIONS")) fields (codes "v=0")
      record { no_lf = omega arith; no_cr = omega arith; filled = refl } refl options_kind
      fields-IsField (omega arith)

abbrev arrived : Inbound
arrived = record {
  kind = request (codes "OPTIONS");
  start = options;
  headers = codes "i: y\nSubject: first second\n";
  body = codes "v=0";
}

parse_run : parse same bytes ≡ ok arrived
unfolding parse
parse_run = refl

call_id_run : call_id arrived ≡ some (codes "y")
unfolding call_id
call_id_run = refl

subject_run : header arrived (codes "subject") ≡ some (codes "first second")
unfolding header
subject_run = refl

blank_run : parse same (codes "   \r\n") ≡ err empty
unfolding parse
blank_run = refl

garbage_run : parse same (codes "GET / HTTP/1.1\r\n\r\n") ≡ err not_sip
unfolding parse
garbage_run = refl

range_run : parse same (codes "SIP/2.0 999 Nope\r\n\r\n") ≡ err not_sip
unfolding parse
range_run = refl

status_run : parse_start_line (codes "SIP/2.0 180 Ringing") ≡ some (response 180 (codes "Ringing"))
unfolding parse_start_line
status_run = refl

-- A sign is taken before the code.
signed_run : parse_start_line (codes "SIP/2.0 +200 OK") ≡ some (response 200 (codes "OK"))
unfolding parse_start_line
signed_run = refl

-- A parameter of the address is taken for one of the header.
inside_run : param_value (codes "<sip:a@h;tag=1>;tag=2") (codes "tag") ≡ some (codes "1>")
unfolding param_value
inside_run = refl

cseq_run : cseq (record arrived { headers = codes "CSeq: 1 INVITE\n" }) ≡ some (1, codes "INVITE")
unfolding cseq
cseq_run = refl

param_value-semicolons_example :
    param_value
      (codes "<sip:a@h>" ++ semicolons ((codes "q", codes "1") ∷ (codes "Tag", codes "x") ∷ []))
      (codes "tag")
    ≡ first_named (codes "tag") ((codes "q", codes "1") ∷ (codes "Tag", codes "x") ∷ [])
unfolding trim trim_start trim_end
param_value-semicolons_example =
    param_value-semicolons (codes "<sip:a@h>") (codes "tag")
      ((codes "q", codes "1") ∷ (codes "Tag", codes "x") ∷ []) (omega arith)
      (
        record {
          name_whole = omega arith;
          value_whole = omega arith;
          plain = omega arith;
          name_trimmed = refl;
          trimmed = refl;
          no_comma = omega arith;
          no_space = omega arith;
        },
        (
          record {
            name_whole = omega arith;
            value_whole = omega arith;
            plain = omega arith;
            name_trimmed = refl;
            trimmed = refl;
            no_comma = omega arith;
            no_space = omega arith;
          },
          tt,
        ),
      )
