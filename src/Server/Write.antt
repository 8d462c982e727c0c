-- ===== src/Server/Write.antt =====
-- src/server/http_server.cpp: reasonPhrase and serialize. `date` is the text of the present time.
use testhub.Base.{
  ℕ, ◌==◌, Bool, not, ◌&&◌, ◌||◌, List, [], ◌∷◌, ◌++◌, any, length, Text, codes, text_eq, to_string,
  Map, if◌then◌else◌,
}
use testhub.StringUtil.{to_lower}
use testhub.Server.{HttpResponse}

abbrev pub phrases : List (ℕ × Text)
phrases =
    (100, codes "Continue")
    ∷ (101, codes "Switching Protocols")
    ∷ (200, codes "OK")
    ∷ (201, codes "Created")
    ∷ (202, codes "Accepted")
    ∷ (204, codes "No Content")
    ∷ (301, codes "Moved Permanently")
    ∷ (302, codes "Found")
    ∷ (304, codes "Not Modified")
    ∷ (400, codes "Bad Request")
    ∷ (401, codes "Unauthorized")
    ∷ (403, codes "Forbidden")
    ∷ (404, codes "Not Found")
    ∷ (405, codes "Method Not Allowed")
    ∷ (408, codes "Request Timeout")
    ∷ (409, codes "Conflict")
    ∷ (413, codes "Payload Too Large")
    ∷ (415, codes "Unsupported Media Type")
    ∷ (418, codes "I'm a teapot")
    ∷ (422, codes "Unprocessable Entity")
    ∷ (426, codes "Upgrade Required")
    ∷ (429, codes "Too Many Requests")
    ∷ (431, codes "Request Header Fields Too Large")
    ∷ (500, codes "Internal Server Error")
    ∷ (501, codes "Not Implemented")
    ∷ (503, codes "Service Unavailable")
    ∷ (504, codes "Gateway Timeout")
    ∷ []

unfoldable pub phrase_in : List (ℕ × Text) → ℕ → Text
phrase_in [] code = codes "Unknown"
phrase_in ((c, phrase) ∷ ps) code = if c == code then phrase else phrase_in ps code

abbrev pub reason_phrase : ℕ → Text
reason_phrase code = phrase_in phrases code

abbrev pub line_end : Text
line_end = 13 ∷ 10 ∷ []

-- Whether a header of that name, in whatever case, is set.
abbrev pub has_header : Map Text → Text → Bool
has_header headers name = any (λ h. text_eq (to_lower h.0) name) headers

unfoldable pub header_lines : Map Text → Text
header_lines [] = []
header_lines ((name, value) ∷ headers) =
    name ++ (codes ": " ++ (value ++ (line_end ++ header_lines headers)))

abbrev pub has_no_body : HttpResponse → Bool
has_no_body r = r.status_code == 204 || r.status_code == 304

abbrev pub line_if : Bool → Text → Text
line_if on line = if on then line ++ line_end else []

unfoldable pub serialize : Text → HttpResponse → Bool → Text
serialize date r keep_alive =
    codes "HTTP/1.1 "
    ++ (to_string r.status_code
        ++ (32
            ∷ (reason_phrase r.status_code
                ++ (line_end
                    ++ (header_lines r.headers
                        ++ (line_if (not (has_header r.headers (codes "date")))
                              (codes "Date: " ++ date)
                            ++ (line_if (not (has_header r.headers (codes "server")))
                                  (codes "Server: TestHub")
                                ++ (line_if
                                      (not (has_header r.headers (codes "content-length"))
                                        && not (has_no_body r))
                                      (codes "Content-Length: " ++ to_string (length r.body))
                                    ++ (line_if (not (has_header r.headers (codes "connection"))) (
                                          codes "Connection: "
                                          ++ (if keep_alive
                                              then codes "keep-alive"
                                              else codes "close"))
                                        ++ (line_end
                                            ++ (if has_no_body r then [] else r.body)))))))))))
