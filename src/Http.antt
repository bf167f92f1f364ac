-- ===== src/Http.antt =====
-- What the controllers ask of an HTTP response, and the transport of garage.go.
use garage_s3_operator.Base.{ℕ, Bool, false, Option, none, some, Error, errorf, ◌==◌, nat_eq}
use garage_s3_operator.Platform.{Response}

-- `resp != nil && resp.StatusCode == code`
abbrev pub has_status : ℕ → Option Response → Bool
has_status code none = false
has_status code (some r) = r.status_code == code

-- `http.StatusNotFound` and `http.StatusBadRequest`
abbrev pub not_found : ℕ
not_found = 404

abbrev pub bad_request : ℕ
bad_request = 400

-- `loggingRoundTripper.RoundTrip`, from what the base transport gave.
unfoldable pub round_trip : Option Response × Option Error → Option Response × Option Error
round_trip (resp, some e) = (resp, some e)
round_trip (none, none) = (none, some (errorf "HTTP response is empty"))
round_trip (some r, none) = (some r, none)
