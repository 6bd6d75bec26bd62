-- ===== src/Userland/Manual.antt =====
-- Userland/SampleCodeModule/builtinFunctions.c: the text that `bi_help` prints.
use tp2_so_2c.Prelude.{List, [], ◌∷◌, ◌++◌, codes}
use tp2_so_2c.Text.{Chars}

join : List Chars → Chars
join [] = []
join (t ∷ ts) = t ++ join ts

-- The constant `manual`; the letter ñ is two bytes.
unfoldable pub manual : Chars
unfolding join
manual = join (
    codes "-------------COMENTARIOS-------------\n"
    ∷ codes "Para ejecutar un proceso en segundo plano, escriba '&' al final del comando.\n"
    ∷ codes "Para conectar dos procesos mediante un pipe, utilice el simbolo '|'.\n\n"
    ∷ codes "-------------BUILT-INS-------------\n"
    ∷ codes "help               Muestra el listado de comandos disponibles. Uso: help\n"
    ∷ codes "font-size          Cambia el tama"
    ∷ (195 ∷ 177 ∷ [])
    ∷ codes "o de la fuente. Uso: font-size <n>\n"
    ∷ codes "block              Bloquea un proceso dado su ID. Uso: block <pid>\n"
    ∷ codes "unblock            Desbloquea un proceso dado su ID. Uso: unblock <pid>\n"
    ∷ codes "kill               Mata un proceso dado su ID. Uso: kill <pid>\n"
    ∷ codes
        "nice               Cambia la prioridad de un proceso dado su ID y la nueva prioridad.\n"
    ∷ codes "                   Uso: nice <pid> <priority>\n"
    ∷ codes
        "mem                Muestra el estado de la memoria: total, ocupada y libre. Uso: mem\n\n"
    ∷ codes "-------------APLICACIONES DE USUARIO-------------\n"
    ∷ codes "clear              Limpia completamente la pantalla. Uso: clear\n"
    ∷ codes
        "ps                 Lista todos los procesos en ejecucion con sus propiedades. Uso: ps\n"
    ∷ codes "loop               Imprime su ID con un saludo cada cierta cantidad de segundos.\n"
    ∷ codes "                   Uso: loop <seconds>\n"
    ∷ codes
        "cat                Imprime el contenido recibido por la entrada estandar (stdin) o de un archivo.\n"
    ∷ codes "                   Uso: cat [archivo]\n"
    ∷ codes
        "wc                 Cuenta la cantidad de lineas recibidas por la entrada estandar. Uso: wc\n"
    ∷ codes
        "filter             Filtra las vocales del texto recibido por la entrada estandar. Uso: filter\n"
    ∷ codes
        "mvar               Simula multiples lectores y escritores sobre una variable compartida.\n"
    ∷ codes "                   Uso: mvar <iteraciones> <lectores> <escritores>\n"
    ∷ codes "                   - <iteraciones>: numero de operaciones por proceso\n"
    ∷ codes
        "                   - <lectores>, <escritores>: cantidad de procesos lectores/escritores a crear\n\n"
    ∷ codes "-------------TESTS DEL SISTEMA-------------\n"
    ∷ codes "testmem            Prueba el administrador de memoria fisica. Uso: testmem\n"
    ∷ codes
        "testproc           Crea, bloquea, desbloquea y mata procesos dummy aleatoriamente. Uso: testproc\n"
    ∷ codes
        "testprio           Crea 3 procesos que incrementan una variable desde 0 hasta un valor dado.\n"
    ∷ codes "                   Uso: testprio <tope>\n"
    ∷ codes
        "testsync           Prueba la sincronizacion usando semaforos. Uso: testsync <iteraciones> <usar_sem>\n"
    ∷ codes "                   - <iteraciones>: numero de incrementos/decrementos por proceso\n"
    ∷ codes
        "                   - <usar_sem>: 1 = con semaforos (resultado estable), 0 = sin semaforos (race condition)\n"
    ∷ codes "\n"
    ∷ [])
