-- ===== src/Build/Status.antt =====
-- `showProgress` of build.go where standard error is a console: each response is handed on to the
-- display in the display's own types.
use img.Common.{List, [], ◌∷◌, map}
use img.Services.Progress.{
  Vertex, VertexStatus, VertexLog, StatusResponse, SolveVertex, SolveVertexStatus, SolveVertexLog,
  SolveStatus,
}

unfoldable pub solve_vertex : Vertex → SolveVertex
solve_vertex v = record {
  digest = v.digest;
  inputs = v.inputs;
  name = v.name;
  started = v.started;
  completed = v.completed;
  error = v.error;
  cached = v.cached;
}

unfoldable pub solve_vertex_status : VertexStatus → SolveVertexStatus
solve_vertex_status v = record {
  id = v.id;
  vertex = v.vertex;
  name = v.name;
  total = v.total;
  current = v.current;
  timestamp = v.timestamp;
  started = v.started;
  completed = v.completed;
}

unfoldable pub solve_vertex_log : VertexLog → SolveVertexLog
solve_vertex_log v = record {
  vertex = v.vertex;
  stream = v.stream;
  payload = v.msg;
  timestamp = v.timestamp;
}

-- The three loops over one response.
unfoldable pub solve_status : StatusResponse → SolveStatus
unfolding solve_vertex solve_vertex_status solve_vertex_log
solve_status resp = record {
  vertexes = map solve_vertex resp.vertexes;
  statuses = map solve_vertex_status resp.statuses;
  logs = map solve_vertex_log resp.logs;
}

-- What the display is sent until the channel is closed.
unfoldable pub show_console : List StatusResponse → List SolveStatus
unfolding solve_status
show_console [] = []
show_console (resp ∷ resps) = solve_status resp ∷ show_console resps
