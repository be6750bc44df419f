-- ===== src/Server/Page.antt =====
-- lib/trace_server.cpp: the page that opens the trace.
use tracey_mctraceface.Base.{List, [], ◌∷◌, ◌++◌, Bytes, codes}

-- The lines of the page.
abbrev opener_lines : List Bytes
opener_lines =
    codes "<!DOCTYPE html>"
    ∷ codes "<html><body style=\"font-family:sans-serif; margin:2em;\">"
    ∷ codes "<h2>tracey_mctraceface</h2>"
    ∷ codes "<p id=\"status\">Loading trace...</p>"
    ∷ codes
        "<button id=\"open\" style=\"display:none; font-size:1.2em; padding:0.5em 1em; cursor:pointer;\">"
    ∷ codes "  Open in Perfetto"
    ∷ codes "</button>"
    ∷ codes "<script>"
    ∷ codes "let traceBuffer = null;"
    ∷ codes ""
    ∷ codes "async function loadTrace() {"
    ∷ codes "  const status = document.getElementById('status');"
    ∷ codes "  const btn = document.getElementById('open');"
    ∷ codes "  try {"
    ∷ codes "    const resp = await fetch('/trace');"
    ∷ codes "    const blob = await resp.blob();"
    ∷ codes "    traceBuffer = await blob.arrayBuffer();"
    ∷ codes
        "    status.textContent = 'Trace loaded (' + (traceBuffer.byteLength / 1024).toFixed(0) + ' KB). Click to open:';"
    ∷ codes "    btn.style.display = 'inline-block';"
    ∷ codes "  } catch (e) {"
    ∷ codes "    status.textContent = 'Error loading trace: ' + e.message;"
    ∷ codes "  }"
    ∷ codes "}"
    ∷ codes ""
    ∷ codes "function openPerfetto() {"
    ∷ codes "  const status = document.getElementById('status');"
    ∷ codes "  const btn = document.getElementById('open');"
    ∷ codes "  const win = window.open('https://ui.perfetto.dev');"
    ∷ codes
        "  if (!win) { status.textContent = 'Popup still blocked. Allow popups for 127.0.0.1.'; return; }"
    ∷ codes ""
    ∷ codes "  btn.style.display = 'none';"
    ∷ codes "  status.textContent = 'Waiting for Perfetto to load...';"
    ∷ codes ""
    ∷ codes "  const timer = setInterval(() => {"
    ∷ codes "    win.postMessage('PING', 'https://ui.perfetto.dev');"
    ∷ codes "  }, 200);"
    ∷ codes ""
    ∷ codes "  window.addEventListener('message', (evt) => {"
    ∷ codes "    if (evt.data !== 'PONG') return;"
    ∷ codes "    clearInterval(timer);"
    ∷ codes "    win.postMessage({"
    ∷ codes
        "      perfetto: { buffer: traceBuffer, title: 'tracey_mctraceface', keepApiOpen: false }"
    ∷ codes "    }, 'https://ui.perfetto.dev');"
    ∷ codes "    status.textContent = 'Trace sent to Perfetto. You can close this tab.';"
    ∷ codes "  });"
    ∷ codes "}"
    ∷ codes ""
    ∷ codes "document.getElementById('open').addEventListener('click', openPerfetto);"
    ∷ codes "loadTrace();"
    ∷ codes "</script>"
    ∷ codes "</body></html>"
    ∷ []

join_lines : List Bytes → Bytes
join_lines [] = []
join_lines (line ∷ []) = line
join_lines (line ∷ next ∷ lines) = line ++ 10 ∷ join_lines (next ∷ lines)

unfoldable pub opener_html : Bytes
unfolding join_lines
opener_html = join_lines opener_lines
