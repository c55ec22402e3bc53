-- ===== src/Http/Response.antt =====
-- The response writers of src/http/yta_http.cpp, by the bytes that they put into the buffer; the source
-- returns the place behind them. The text of a date is what `strftime` writes, a parameter.
pub mod Size
use yotta.Prelude.{ℕ, [], ◌∷◌, ◌++◌, Bytes, codes}
use yotta.Core.Decimal.{print_decimal}

abbrev crlf : Bytes
crlf = 13 ∷ 10 ∷ []

abbrev linefeed : Bytes
linefeed = crlf ++ crlf

unfoldable pub serve_200 : ℕ → Bytes → Bytes → Bytes
serve_200 content_length last_modified content_type =
    codes "HTTP/1.1 200 OK"
    ++ (crlf
        ++ (codes "Connection: keep-alive"
            ++ (crlf
                ++ (codes "Last-Modified: "
                    ++ (last_modified
                        ++ (crlf
                            ++ (codes "Content-Length: "
                                ++ (print_decimal content_length
                                    ++ (crlf
                                        ++ (codes "Content-Type: "
                                            ++ (content_type ++ linefeed)))))))))))

unfoldable pub serve_304 : Bytes
serve_304 =
    codes "HTTP/1.1 304 Not Modified"
    ++ (crlf
        ++ (codes "Connection: keep-alive" ++ (crlf ++ (codes "Content-Length: 0" ++ linefeed))))

unfoldable pub serve_206 : ℕ → Bytes → ℕ → ℕ → ℕ → Bytes
serve_206 content_length last_modified range_start range_end file_size =
    codes "HTTP/1.1 206 Partial Content"
    ++ (crlf
        ++ (codes "Accept-Ranges: bytes"
            ++ (crlf
                ++ (codes "Last-Modified: "
                    ++ (last_modified
                        ++ (crlf
                            ++ (codes "Content-Range: bytes "
                                ++ (print_decimal range_start
                                    ++ (b'-' ∷ print_decimal range_end
                                        ++ (b'/' ∷ print_decimal file_size
                                            ++ (crlf
                                                ++ (codes "Content-Length: "
                                                    ++ (print_decimal content_length
                                                        ++ linefeed)))))))))))))

unfoldable pub serve_400 : Bytes
serve_400 =
    codes "HTTP/1.1 400 Bad Request"
    ++ (crlf ++ (codes "Connection: close" ++ (crlf ++ (codes "Content-Length: 0" ++ linefeed))))

unfoldable pub serve_404 : Bytes
serve_404 =
    codes "HTTP/1.1 404 Not Found"
    ++ (crlf
        ++ (codes "Connection: keep-alive" ++ (crlf ++ (codes "Content-Length: 0" ++ linefeed))))
