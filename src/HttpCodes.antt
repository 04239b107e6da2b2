-- ===== src/HttpCodes.antt =====
-- base/http_codes.h, base/http_codes.c: the table of responses and `setup_http_response_array`.
use Prim.Native.String.{String, len}
use aio_server.Base.{ℕ, zero, suc, ◌≡◌, refl, ap, Option, none, some, List, [], ◌∷◌, get_elem?}

-- `http_string_spec` is `none` where the code has the null pointer.
pub record HttpResponse : Type 0 where
  pub http_string_spec : Option String
  pub http_code : ℕ
  pub string_spec_len : ℕ

-- `(size_t) -1`, with 32-bit sizes
abbrev pub size_max : ℕ
size_max = 4294967295

abbrev pub not_implemented : ℕ → HttpResponse
not_implemented n = record { http_string_spec = none; http_code = n; string_spec_len = 0 }

abbrev pub http_response_array : List HttpResponse
http_response_array =
    record {
      http_string_spec =
          some
            "HTTP/1.1 200 OK\r\nContent-length: %I64u\r\nConnection: close\r\nContent-Type: %s\r\n\r\n";
      http_code = 200;
      string_spec_len = size_max;
    }
    ∷ not_implemented 201
    ∷ not_implemented 202
    ∷ not_implemented 204
    ∷ not_implemented 301
    ∷ not_implemented 302
    ∷ not_implemented 304
    ∷ record {
      http_string_spec =
          some "HTTP/1.1 400 Bad request\r\nConnection: close\r\nContent-Length: 0\r\n\r\n";
      http_code = 400;
      string_spec_len = 0;
    }
    ∷ not_implemented 401
    ∷ not_implemented 403
    ∷ record {
      http_string_spec =
          some "HTTP/1.1 404 Not found\r\nConnection: close\r\nContent-Length: 0\r\n\r\n";
      http_code = 404;
      string_spec_len = 0;
    }
    ∷ record {
      http_string_spec =
          some
            "HTTP/1.1 500 Internal server error\r\nConnection: close\r\nContent-Length: 0\r\n\r\n";
      http_code = 500;
      string_spec_len = 0;
    }
    ∷ not_implemented 501
    ∷ not_implemented 502
    ∷ not_implemented 503
    ∷ []

-- The body of the loop, for one entry.
abbrev pub setup_entry : HttpResponse → HttpResponse
setup_entry r = record r {
  string_spec_len = elim r.http_string_spec [ some s ↦ len s | none ↦ r.string_spec_len ];
}

unfoldable pub setup_http_response_array : List HttpResponse → List HttpResponse
setup_http_response_array [] = []
setup_http_response_array (r ∷ rs) = setup_entry r ∷ setup_http_response_array rs

-- `kHTTPCodes`
pub data HttpCode : Type 0 where
  code_200_ok code_201_created code_202_accepted code_204_no_content code_301_moved_perm : HttpCode
  code_302_moved_temp code_304_not_modified code_400_bad_request code_401_unauthorized : HttpCode
  code_403_forbidden code_404_not_found code_500_internal_error code_501_not_implemented : HttpCode
  code_502_bad_gateway code_503_service_unavailable : HttpCode

-- The value of an enumerator, which is its place in the table.
abbrev pub index : HttpCode → ℕ
index code_200_ok = 0
index code_201_created = 1
index code_202_accepted = 2
index code_204_no_content = 3
index code_301_moved_perm = 4
index code_302_moved_temp = 5
index code_304_not_modified = 6
index code_400_bad_request = 7
index code_401_unauthorized = 8
index code_403_forbidden = 9
index code_404_not_found = 10
index code_500_internal_error = 11
index code_501_not_implemented = 12
index code_502_bad_gateway = 13
index code_503_service_unavailable = 14

-- The status that an enumerator's name says.
abbrev pub status : HttpCode → ℕ
status code_200_ok = 200
status code_201_created = 201
status code_202_accepted = 202
status code_204_no_content = 204
status code_301_moved_perm = 301
status code_302_moved_temp = 302
status code_304_not_modified = 304
status code_400_bad_request = 400
status code_401_unauthorized = 401
status code_403_forbidden = 403
status code_404_not_found = 404
status code_500_internal_error = 500
status code_501_not_implemented = 501
status code_502_bad_gateway = 502
status code_503_service_unavailable = 503

-- An entry that can be sent: its length is that of its text.
abbrev pub IsReady : HttpResponse → Type 0
IsReady r = (s : String) → r.http_string_spec ≡ some s → r.string_spec_len ≡ len s

setup_entry-IsReady : (r : HttpResponse) → IsReady (setup_entry r)
setup_entry-IsReady r s e = rw e refl

get-setup :
    (rs : List HttpResponse) (i : ℕ) (r : HttpResponse)
    → get_elem? rs i ≡ some r
    → get_elem? (setup_http_response_array rs) i ≡ some (setup_entry r)
unfolding setup_http_response_array
get-setup [] i r e = absurd (cc e)
get-setup (x ∷ rs) zero r e = ap (λ o. elim o [ none ↦ none | some y ↦ some (setup_entry y) ]) e
get-setup (x ∷ rs) (suc i) r e = get-setup rs i r e

at_index :
    (c : HttpCode)
    → (r : HttpResponse) × (get_elem? http_response_array (index c) ≡ some r)
      × (r.http_code ≡ status c)
at_index code_200_ok = (_, refl, refl)
at_index code_201_created = (_, refl, refl)
at_index code_202_accepted = (_, refl, refl)
at_index code_204_no_content = (_, refl, refl)
at_index code_301_moved_perm = (_, refl, refl)
at_index code_302_moved_temp = (_, refl, refl)
at_index code_304_not_modified = (_, refl, refl)
at_index code_400_bad_request = (_, refl, refl)
at_index code_401_unauthorized = (_, refl, refl)
at_index code_403_forbidden = (_, refl, refl)
at_index code_404_not_found = (_, refl, refl)
at_index code_500_internal_error = (_, refl, refl)
at_index code_501_not_implemented = (_, refl, refl)
at_index code_502_bad_gateway = (_, refl, refl)
at_index code_503_service_unavailable = (_, refl, refl)

-- After setup_http_response_array the table has, at the place of each enumerator of kHTTPCodes,
-- the status that its name says, and its length is that of its text where it has one.
pub lookup-IsReady :
    (c : HttpCode)
    → (r : HttpResponse) × (get_elem? (setup_http_response_array http_response_array) (index c)
        ≡ some r)
      × (r.http_code ≡ status c)
      × IsReady r
lookup-IsReady c =
    let (r, e, same_status) = at_index c in
    (setup_entry r, get-setup http_response_array (index c) r e, same_status, setup_entry-IsReady r)
