-- ===== src/Query/Lexer/Keywords.antt =====
-- The words of engine/query/lexer.py, by their code points.
use soup_db.Common.{List, [], ◌∷◌}
use soup_db.Common.Utf8.{Text}

-- `_KEYWORDS`: SELECT, AS, FROM, WHERE, AND, OR, NOT, BETWEEN, IN, LIKE, ORDER, BY, GROUP, ASC,
-- DESC, DISTINCT, TRUE, FALSE, INSERT, INTO, VALUES, DELETE, CREATE, DROP, TABLE, INDEX, EXTENSION,
-- PLUGIN, ON, ENGINE, TYPE, HEAP, SEQUENTIAL, BTREE, HASH, COUNT, SUM, AVG, MIN, MAX, FORMAT, JSON,
-- PRIMARY, KEY, POINT, DISTANCE, UPDATE, SET, JOIN, INNER, HAVING, LIMIT, OFFSET, IS, NULL,
-- EXPLAIN, ANALYZE, BEGIN, END, TRANSACTION, POLYGON, INTERSECTS
abbrev pub keywords : List Text
keywords =
    (83 ∷ 69 ∷ 76 ∷ 69 ∷ 67 ∷ 84 ∷ [])
    ∷ (65 ∷ 83 ∷ [])
    ∷ (70 ∷ 82 ∷ 79 ∷ 77 ∷ [])
    ∷ (87 ∷ 72 ∷ 69 ∷ 82 ∷ 69 ∷ [])
    ∷ (65 ∷ 78 ∷ 68 ∷ [])
    ∷ (79 ∷ 82 ∷ [])
    ∷ (78 ∷ 79 ∷ 84 ∷ [])
    ∷ (66 ∷ 69 ∷ 84 ∷ 87 ∷ 69 ∷ 69 ∷ 78 ∷ [])
    ∷ (73 ∷ 78 ∷ [])
    ∷ (76 ∷ 73 ∷ 75 ∷ 69 ∷ [])
    ∷ (79 ∷ 82 ∷ 68 ∷ 69 ∷ 82 ∷ [])
    ∷ (66 ∷ 89 ∷ [])
    ∷ (71 ∷ 82 ∷ 79 ∷ 85 ∷ 80 ∷ [])
    ∷ (65 ∷ 83 ∷ 67 ∷ [])
    ∷ (68 ∷ 69 ∷ 83 ∷ 67 ∷ [])
    ∷ (68 ∷ 73 ∷ 83 ∷ 84 ∷ 73 ∷ 78 ∷ 67 ∷ 84 ∷ [])
    ∷ (84 ∷ 82 ∷ 85 ∷ 69 ∷ [])
    ∷ (70 ∷ 65 ∷ 76 ∷ 83 ∷ 69 ∷ [])
    ∷ (73 ∷ 78 ∷ 83 ∷ 69 ∷ 82 ∷ 84 ∷ [])
    ∷ (73 ∷ 78 ∷ 84 ∷ 79 ∷ [])
    ∷ (86 ∷ 65 ∷ 76 ∷ 85 ∷ 69 ∷ 83 ∷ [])
    ∷ (68 ∷ 69 ∷ 76 ∷ 69 ∷ 84 ∷ 69 ∷ [])
    ∷ (67 ∷ 82 ∷ 69 ∷ 65 ∷ 84 ∷ 69 ∷ [])
    ∷ (68 ∷ 82 ∷ 79 ∷ 80 ∷ [])
    ∷ (84 ∷ 65 ∷ 66 ∷ 76 ∷ 69 ∷ [])
    ∷ (73 ∷ 78 ∷ 68 ∷ 69 ∷ 88 ∷ [])
    ∷ (69 ∷ 88 ∷ 84 ∷ 69 ∷ 78 ∷ 83 ∷ 73 ∷ 79 ∷ 78 ∷ [])
    ∷ (80 ∷ 76 ∷ 85 ∷ 71 ∷ 73 ∷ 78 ∷ [])
    ∷ (79 ∷ 78 ∷ [])
    ∷ (69 ∷ 78 ∷ 71 ∷ 73 ∷ 78 ∷ 69 ∷ [])
    ∷ (84 ∷ 89 ∷ 80 ∷ 69 ∷ [])
    ∷ (72 ∷ 69 ∷ 65 ∷ 80 ∷ [])
    ∷ (83 ∷ 69 ∷ 81 ∷ 85 ∷ 69 ∷ 78 ∷ 84 ∷ 73 ∷ 65 ∷ 76 ∷ [])
    ∷ (66 ∷ 84 ∷ 82 ∷ 69 ∷ 69 ∷ [])
    ∷ (72 ∷ 65 ∷ 83 ∷ 72 ∷ [])
    ∷ (67 ∷ 79 ∷ 85 ∷ 78 ∷ 84 ∷ [])
    ∷ (83 ∷ 85 ∷ 77 ∷ [])
    ∷ (65 ∷ 86 ∷ 71 ∷ [])
    ∷ (77 ∷ 73 ∷ 78 ∷ [])
    ∷ (77 ∷ 65 ∷ 88 ∷ [])
    ∷ (70 ∷ 79 ∷ 82 ∷ 77 ∷ 65 ∷ 84 ∷ [])
    ∷ (74 ∷ 83 ∷ 79 ∷ 78 ∷ [])
    ∷ (80 ∷ 82 ∷ 73 ∷ 77 ∷ 65 ∷ 82 ∷ 89 ∷ [])
    ∷ (75 ∷ 69 ∷ 89 ∷ [])
    ∷ (80 ∷ 79 ∷ 73 ∷ 78 ∷ 84 ∷ [])
    ∷ (68 ∷ 73 ∷ 83 ∷ 84 ∷ 65 ∷ 78 ∷ 67 ∷ 69 ∷ [])
    ∷ (85 ∷ 80 ∷ 68 ∷ 65 ∷ 84 ∷ 69 ∷ [])
    ∷ (83 ∷ 69 ∷ 84 ∷ [])
    ∷ (74 ∷ 79 ∷ 73 ∷ 78 ∷ [])
    ∷ (73 ∷ 78 ∷ 78 ∷ 69 ∷ 82 ∷ [])
    ∷ (72 ∷ 65 ∷ 86 ∷ 73 ∷ 78 ∷ 71 ∷ [])
    ∷ (76 ∷ 73 ∷ 77 ∷ 73 ∷ 84 ∷ [])
    ∷ (79 ∷ 70 ∷ 70 ∷ 83 ∷ 69 ∷ 84 ∷ [])
    ∷ (73 ∷ 83 ∷ [])
    ∷ (78 ∷ 85 ∷ 76 ∷ 76 ∷ [])
    ∷ (69 ∷ 88 ∷ 80 ∷ 76 ∷ 65 ∷ 73 ∷ 78 ∷ [])
    ∷ (65 ∷ 78 ∷ 65 ∷ 76 ∷ 89 ∷ 90 ∷ 69 ∷ [])
    ∷ (66 ∷ 69 ∷ 71 ∷ 73 ∷ 78 ∷ [])
    ∷ (69 ∷ 78 ∷ 68 ∷ [])
    ∷ (84 ∷ 82 ∷ 65 ∷ 78 ∷ 83 ∷ 65 ∷ 67 ∷ 84 ∷ 73 ∷ 79 ∷ 78 ∷ [])
    ∷ (80 ∷ 79 ∷ 76 ∷ 89 ∷ 71 ∷ 79 ∷ 78 ∷ [])
    ∷ (73 ∷ 78 ∷ 84 ∷ 69 ∷ 82 ∷ 83 ∷ 69 ∷ 67 ∷ 84 ∷ 83 ∷ [])
    ∷ []

abbrev pub word_null : Text
word_null = 78 ∷ 85 ∷ 76 ∷ 76 ∷ []

abbrev pub word_distancia : Text
word_distancia = 68 ∷ 73 ∷ 83 ∷ 84 ∷ 65 ∷ 78 ∷ 67 ∷ 73 ∷ 65 ∷ []

abbrev pub word_distance : Text
word_distance = 68 ∷ 73 ∷ 83 ∷ 84 ∷ 65 ∷ 78 ∷ 67 ∷ 69 ∷ []
